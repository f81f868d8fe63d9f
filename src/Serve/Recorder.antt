-- ===== src/Serve/Recorder.antt =====
-- What the access log learns from the writer of an answer, `statusRecorder` of
-- internal/proxy/engine.go. The reverse proxy calls `WriteHeader` for informational answers of the
-- upstream as well, and then for the final one.
use revproxy.Prelude.{ℕ, ◌+◌, ◌<◌, ◌≡◌, refl, List, [], ◌∷◌, if◌then◌else◌, ◌==◌, arith, Bytes}
use revproxy.Backend.{Backend}
use revproxy.Host.{Request}
use revproxy.Access.{Net}
use revproxy.Serve.{Handler, proxied}

pub record StatusRecorder : Type 0 where
  pub status : ℕ
  pub written : ℕ

abbrev pub new_recorder : StatusRecorder
new_recorder = record { status = 0; written = 0 }

unfoldable pub write_header : ℕ → StatusRecorder → StatusRecorder
write_header code r = if r.status == 0 then record r { status = code } else r

-- `n` is what the writer below says that it has written; the sum is an int64, which no answer fills.
unfoldable pub write_bytes : ℕ → StatusRecorder → StatusRecorder
write_bytes n r = record {
  status = if r.status == 0 then 200 else r.status;
  written = r.written + n;
}

pub data WriterCall : Type 0 where
  header : ℕ → WriterCall
  body : ℕ → WriterCall

unfoldable pub recorded : List WriterCall → StatusRecorder → StatusRecorder
unfolding write_header write_bytes
recorded [] r = r
recorded (header code ∷ calls) r = recorded calls (write_header code r)
recorded (body n ∷ calls) r = recorded calls (write_bytes n r)

-- The first status, where bytes without one stand for 200 and so does no call at all.
abbrev pub first_status : List WriterCall → ℕ
first_status [] = 200
first_status (header code ∷ calls) = code
first_status (body n ∷ calls) = 200

abbrev pub bytes_in : List WriterCall → ℕ
bytes_in [] = 0
bytes_in (header code ∷ calls) = bytes_in calls
bytes_in (body n ∷ calls) = n + bytes_in calls

-- A recorder that has a status keeps it.
recorded-kept :
    (calls : List WriterCall) (r : StatusRecorder)
    → 0 < r.status
    → ((recorded calls r).status ≡ r.status)
      × ((recorded calls r).written ≡ r.written + bytes_in calls)
unfolding recorded write_header write_bytes
recorded-kept [] r h = omega arith
recorded-kept (header code ∷ calls) r h = ground (arith, recorded-kept calls (write_header code r))
recorded-kept (body n ∷ calls) r h = ground (arith, recorded-kept calls (write_bytes n r))

-- Codes of answers are positive.
abbrev pub HavePositive : List WriterCall → Type 0
HavePositive [] = Unit {0}
HavePositive (header code ∷ calls) = (0 < code) × HavePositive calls
HavePositive (body n ∷ calls) = HavePositive calls

recorded-first :
    (calls : List WriterCall)
    → HavePositive calls
    → let r = recorded calls new_recorder in
      ((if r.status == 0 then 200 else r.status) ≡ first_status calls)
      × (r.written ≡ bytes_in calls)
unfolding recorded write_header write_bytes
recorded-first [] h = (refl, refl)
recorded-first (header code ∷ calls) h =
    ground (arith, recorded-kept calls (record { status = code; written = 0 }))
recorded-first (body n ∷ calls) h =
    ground (arith, recorded-kept calls (record { status = 200; written = n }))

module _ (n : Net) (status_text : ℕ → Bytes)
    (reverse_proxy : Handler n → Backend → Request → Handler n × (ℕ × ℕ)) where
  -- The status in the access log is the first one of all that were written, be it that of an
  -- informational answer such as 103 before the final one; it is 200 where bytes came first or nothing
  -- was written. The bytes are all that were written.
  pub proxied-first :
      (calls : List WriterCall) (texts : Bytes × Bytes)
      → HavePositive calls
      → let r = recorded calls new_recorder in
        let a = proxied n status_text reverse_proxy (r.status, r.written) texts in
        (a.status ≡ first_status calls) × (a.written ≡ bytes_in calls)
  unfolding proxied
  proxied-first calls (up, through) h = recorded-first calls h
