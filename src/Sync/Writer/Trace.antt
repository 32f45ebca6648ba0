-- ===== src/Sync/Writer/Trace.antt =====
-- A client that also keeps the calls made through it, the latest first.
use kvsynk8s.Base.{Option, none, some, List, [], ◌∷◌}
use kvsynk8s.Errors.{Err, Result, ok, err}
use kvsynk8s.Exec.{Exec, attempt, wrapped, rewrap}
use kvsynk8s.Api.{Secret}
use kvsynk8s.Kube.{Client, Reader}
use kvsynk8s.Sync.Writer.{SecretWriter}

-- `looked s`: a Get answered with `s`; the others are the requests that were sent.
pub data Call : Type 0 where
  looked created updated deleted : Secret → Call

pub record Traced (W : Type 0) : Type 0 where
  pub world : W
  pub calls : List Call

abbrev pub log_look : Result Secret → List Call → List Call
log_look (ok s) cs = looked s ∷ cs
log_look (err e) cs = cs

abbrev pub log_looks : Result (List Secret) → List Call → List Call
log_looks (ok []) cs = cs
log_looks (ok (s ∷ ss)) cs = looked s ∷ log_looks (ok ss) cs
log_looks (err e) cs = cs

module _ {W : Type 0} where
  abbrev pub start : W → Traced W
  start w = record { world = w; calls = [] }

  abbrev pub looking : Exec W Secret → Exec (Traced W) Secret
  looking m t = let (r, w) = m t.world in (r, record { world = w; calls = log_look r t.calls })

  abbrev pub sending : {A : Type 0} → Call → Exec W A → Exec (Traced W) A
  sending c m t = let (r, w) = m t.world in (r, record { world = w; calls = c ∷ t.calls })

  abbrev pub traced : Client W → Client (Traced W)
  traced c = record {
    get_secret = λ ns name. looking (c.get_secret ns name);
    create_secret = λ s. sending (created s) (c.create_secret s);
    update_secret = λ s. sending (updated s) (c.update_secret s);
    delete_secret = λ s. sending (deleted s) (c.delete_secret s);
    list_secrets = λ ns key value t.
        let (r, w) = c.list_secrets ns key value t.world in
        (r, record { world = w; calls = log_looks r t.calls });
  }

  abbrev pub traced_reader : Reader W → Reader (Traced W)
  traced_reader r = record { get_secret = λ ns name. looking (r.get_secret ns name) }

  abbrev traced_option : Option (Client W) → Option (Client (Traced W))
  traced_option none = none
  traced_option (some c) = some (traced c)

  abbrev pub traced_reader_option : Option (Reader W) → Option (Reader (Traced W))
  traced_reader_option none = none
  traced_reader_option (some c) = some (traced_reader c)

  abbrev pub traced_writer : SecretWriter W → SecretWriter (Traced W)
  traced_writer w = record {
    client = traced_option w.client;
    reader = traced_reader_option w.reader;
  }

  -- A property of the result, proved of what follows a Get by its two answers.
  module _ {A : Type 0} (P : Result A × Traced W → Type 0) (m : Exec W Secret) where
    pub after_look :
        (f : Result Secret → Exec (Traced W) A) (t : Traced W)
        → ((e : Err) (w : W) → P (f (err e) (record { world = w; calls = t.calls })))
        → ((s : Secret) (w : W) → P (f (ok s) (record { world = w; calls = looked s ∷ t.calls })))
        → P (attempt (looking m) f t)
    after_look f t failed found = go (m t.world).0
      where
        go :
            (r : Result Secret)
            → P (f r (record { world = (m t.world).1; calls = log_look r t.calls }))
        go (ok s) = found s (m t.world).1
        go (err e) = failed e (m t.world).1

    pub after_wrapped_look :
        (f : Result Secret → Exec (Traced W) A) (t : Traced W)
        → ((e : Err) (w : W) → P (f (err (Err.wrap e)) (record { world = w; calls = t.calls })))
        → ((s : Secret) (w : W) → P (f (ok s) (record { world = w; calls = looked s ∷ t.calls })))
        → P (attempt (wrapped (looking m)) f t)
    after_wrapped_look f t failed found = after_look (λ r. attempt (rewrap r) f) t failed found
