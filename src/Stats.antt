-- ===== src/Stats.antt =====
-- internal/stats/stats.go: the metrics collector and its access log.
-- Seconds, durations, sizes and status codes are never negative in the program, and are numbers;
-- `uint64` counters wrap at 2 ^ 64. `time.Now()` is an argument of each call.
pub mod Recent
pub mod LastMinute
pub mod Counters
mod Tests
use revproxy.Prelude.{
  ℕ, zero, suc, ◌+◌, ◌-◌, ◌%◌, ◌^◌, Bool, true, false, ◌||◌, List, [], ◌∷◌, ◌++◌, Option, none,
  some, ltb, leb, ◌==◌, if◌then◌else◌, length, set, get_or, get_elem?, take, replicate, ℤ, pos,
  negsuc, add64, sub64, is_nonpos, Bytes, is_empty, bytes_eq,
}

pub record AccessLog : Type 0 where
  pub time : ℕ
  pub route_id : Bytes
  pub route : Bytes
  pub method : Bytes
  pub host : Bytes
  pub path : Bytes
  pub status : ℕ
  pub duration : ℕ
  pub bytes_out : ℕ
  pub client_ip : Bytes
  pub upstream : Bytes
  pub via_proxy : Bytes
  pub error : Bytes
  pub retry : ℕ

-- `last_err_at` is the time that the source formats.
pub record RouteStat : Type 0 where
  pub requests : ℕ
  pub status_2xx : ℕ
  pub status_3xx : ℕ
  pub status_4xx : ℕ
  pub status_5xx : ℕ
  pub bytes_out : ℕ
  pub total_dur : ℕ
  pub max_dur : ℕ
  pub active : ℤ
  pub last_error : Bytes
  pub last_err_at : Option ℕ

abbrev pub no_stat : RouteStat
no_stat = record {
  requests = 0;
  status_2xx = 0;
  status_3xx = 0;
  status_4xx = 0;
  status_5xx = 0;
  bytes_out = 0;
  total_dur = 0;
  max_dur = 0;
  active = pos 0;
  last_error = [];
  last_err_at = none;
}

-- The sixty counters and the second that was counted last.
pub record Window : Type 0 where
  pub buckets : List ℕ
  pub cur_sec : ℕ

-- The ring of access logs.
pub record Ring : Type 0 where
  pub logs : List AccessLog
  pub log_pos : ℕ
  pub log_cap : ℕ

-- `file_ch` is the channel to the file writer, and `file` what the writer has written.
pub record Collector : Type 0 where
  pub start : ℕ
  pub total : ℕ
  pub bytes : ℕ
  pub active : ℤ
  pub routes : List (Bytes × RouteStat)
  pub window : Window
  pub ring : Ring
  pub file_path : Bytes
  pub file_ch : List AccessLog
  pub file : List AccessLog

abbrev pub new_ring : ℤ → Ring
new_ring capacity = record {
  logs = [];
  log_pos = 0;
  log_cap = elim capacity [ pos n ↦ if leb n 0 then 500 else n | negsuc n ↦ 500 ];
}

pub empty_buckets : List ℕ
empty_buckets = replicate 60 0

unfoldable pub new : ℤ → Bytes → ℕ → Collector
new capacity file_path now = record {
  start = now;
  total = 0;
  bytes = 0;
  active = pos 0;
  routes = [];
  window = record { buckets = empty_buckets; cur_sec = now };
  ring = new_ring capacity;
  file_path = file_path;
  file_ch = [];
  file = [];
}

-- The loop of `Begin` that clears the seconds which had no request.
pub advance : ℕ → ℕ → List ℕ → List ℕ
advance zero cur buckets = buckets
advance (suc gap) cur buckets = advance gap (cur + 1) (set buckets ((cur + 1) % 60) 0)

pub roll : Window → ℕ → List ℕ
unfolding advance
roll w sec =
    if sec == w.cur_sec
    then w.buckets
    else if leb (w.cur_sec + 60) sec
    then empty_buckets
    else advance (sec - w.cur_sec) w.cur_sec w.buckets

pub count_request : Window → ℕ → Window
count_request w sec = record {
  buckets =
      let buckets = roll w sec in
      set buckets (sec % 60) ((get_or buckets (sec % 60) 0 + 1) % 2 ^ 64);
  cur_sec = sec;
}

unfoldable pub begin_request : Collector → ℕ → Collector
begin_request c sec = record c {
  active = add64 c.active (pos 1);
  total = (c.total + 1) % 2 ^ 64;
  window = count_request c.window sec;
}

pub lookup_stat : Bytes → List (Bytes × RouteStat) → Option RouteStat
lookup_stat id [] = none
lookup_stat id ((k, rs) ∷ m) = if bytes_eq k id then some rs else lookup_stat id m

pub insert_stat : Bytes → RouteStat → List (Bytes × RouteStat) → List (Bytes × RouteStat)
insert_stat id rs [] = (id, rs) ∷ []
insert_stat id rs ((k, r) ∷ m) = if bytes_eq k id then (k, rs) ∷ m else (k, r) ∷ insert_stat id rs m

-- The switch on the status class.
pub count_status : ℕ → RouteStat → RouteStat
count_status status rs =
    if leb 500 status
    then record rs { status_5xx = (rs.status_5xx + 1) % 2 ^ 64 }
    else if leb 400 status
    then record rs { status_4xx = (rs.status_4xx + 1) % 2 ^ 64 }
    else if leb 300 status
    then record rs { status_3xx = (rs.status_3xx + 1) % 2 ^ 64 }
    else record rs { status_2xx = (rs.status_2xx + 1) % 2 ^ 64 }

pub note_error : AccessLog → RouteStat → RouteStat
note_error l rs =
    if is_empty l.error then rs else record rs { last_error = l.error; last_err_at = some l.time }

-- What `End` does to the entry of the route; `active` is the gauge after the decrement.
pub update_stat : AccessLog → ℤ → RouteStat → RouteStat
unfolding count_status note_error
update_stat l active rs =
    let counted = count_status l.status (record rs { requests = (rs.requests + 1) % 2 ^ 64 }) in
    let summed = record counted {
      bytes_out = (counted.bytes_out + l.bytes_out) % 2 ^ 64;
      total_dur = (counted.total_dur + l.duration) % 2 ^ 64;
      max_dur = if ltb counted.max_dur l.duration then l.duration else counted.max_dur;
    } in
    record (note_error l summed) { active = active }

pub or_fresh : Option RouteStat → RouteStat
or_fresh none = no_stat
or_fresh (some rs) = rs

pub push_log : Ring → AccessLog → Ring
push_log r l =
    if ltb (length r.logs) r.log_cap
    then record r { logs = r.logs ++ l ∷ [] }
    else record r { logs = set r.logs r.log_pos l; log_pos = (r.log_pos + 1) % r.log_cap }

-- The non-blocking send on a channel of 4096 places.
pub send_file : Bytes → AccessLog → List AccessLog → List AccessLog
send_file path l ch =
    if is_empty path then ch else if ltb (length ch) 4096 then ch ++ l ∷ [] else ch

unfoldable pub end_request : Collector → AccessLog → Collector
unfolding update_stat or_fresh push_log send_file
end_request c l =
    let active = sub64 c.active (pos 1) in
    let rs = or_fresh (lookup_stat l.route_id c.routes) in
    record c {
      active = active;
      bytes = (c.bytes + l.bytes_out) % 2 ^ 64;
      routes = insert_stat l.route_id (update_stat l active rs) c.routes;
      ring = push_log c.ring l;
      file_ch = send_file c.file_path l c.file_ch;
    }

-- One round of the file writer.
pub write_next : Collector → Collector
write_next c = elim c.file_ch [
  | [] ↦ c
  | l ∷ rest ↦ record c { file_ch = rest; file = c.file ++ l ∷ [] }
]

-- The `limit` in force: a limit that is not positive, or too large, stands for all.
pub clamp_limit : ℤ → ℕ → ℕ
clamp_limit (negsuc _) n = n
clamp_limit (pos k) n = if leb k 0 || ltb n k then n else k

-- The loop of `Logs` from round `i`; `none` is an index out of range.
pub collect : Ring → ℕ → ℕ → Option (List AccessLog)
collect r zero i = some []
collect r (suc rounds) i =
    let n = length r.logs in
    let rest = collect r rounds (i + 1) in
    elim (get_elem? r.logs ((r.log_pos + n - 1 - i + n) % n)) [
      | none ↦ none
      | some l ↦ elim rest [ none ↦ none | some out ↦ some (l ∷ out) ]
    ]

pub logs : Ring → ℤ → Option (List AccessLog)
unfolding collect clamp_limit
logs r limit = collect r (clamp_limit limit (length r.logs)) 0

pub clear : Ring → Ring
clear r = record r { logs = []; log_pos = 0 }

-- One entry of the series in a snapshot: the requests `back` seconds ago. The source adds 60 to a
-- negative remainder; here 60 is added first.
pub bucket_at : Window → ℕ → ℕ → ℕ
bucket_at w now back = get_or w.buckets ((now + 60 - back) % 60) 0

-- The loop over the series from the oldest of the seconds.
pub series_from : Window → ℕ → ℕ → List ℕ
series_from w now zero = []
series_from w now (suc k) = bucket_at w now k ∷ series_from w now k

pub series : Window → ℕ → List ℕ
unfolding series_from bucket_at
series w now = series_from w now 60

-- The sum of the last `k` seconds, of which the source reports a fifth at `k = 5`.
pub recent_sum : Window → ℕ → ℕ → ℕ
unfolding bucket_at
recent_sum w now zero = 0
recent_sum w now (suc k) = (recent_sum w now k + bucket_at w now k) % 2 ^ 64

pub total_dur_sum : List (Bytes × RouteStat) → ℕ
total_dur_sum [] = 0
total_dur_sum ((_, rs) ∷ m) = (rs.total_dur + total_dur_sum m) % 2 ^ 64

-- A snapshot; the two averages stand as their numerators over 5 and `total_req`.
pub record Snapshot : Type 0 where
  pub uptime_sec : ℕ
  pub total_req : ℕ
  pub qps_sum : ℕ
  pub qps_1m : List ℕ
  pub active : ℤ
  pub bytes_out : ℕ
  pub dur_sum : ℕ
  pub routes : List (Bytes × RouteStat)
  pub log_count : ℕ

pub snapshot : Collector → ℕ → Snapshot
unfolding recent_sum series total_dur_sum
snapshot c now = record {
  uptime_sec = now - c.start;
  total_req = c.total;
  qps_sum = recent_sum c.window now 5;
  qps_1m = series c.window now;
  active = c.active;
  bytes_out = c.bytes;
  dur_sum = total_dur_sum c.routes;
  routes = c.routes;
  log_count = length c.ring.logs;
}
