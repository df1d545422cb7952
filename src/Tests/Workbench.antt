-- ===== src/Tests/Workbench.antt =====
-- A lab in memory. Calls of ROS succeed and each spin hears a message; a process whose number
-- is no multiple of four ends by itself when it is waited for, and any process when it is killed.
use rosplus.Base.{
  ℕ, zero, suc, ap, ◌+◌, ◌%◌, ◌≤◌, ◌≡◌, refl, Bool, true, false, not, ◌||◌, ◌==◌, Option, none,
  some, List, [], ◌∷◌, ◌++◌, arith, nat_beq, if◌then◌else◌,
}
use rosplus.Exec.{Result, ok}
use rosplus.Process.Table.{exited}
use rosplus.Json.{Json, null, bool, num, str, obj, end, field}
use rosplus.Scripts.Lab.{
  Lab, Session, Signal, sigint, sigterm, sigkill, Call, spin_once, wait_for_server,
  wait_for_service,
}
use rosplus.Base.Int.{pos}
use rosplus.Scripts.Benchmark.Subscriber.{Post, Listener}
use rosplus.Scripts.Dds.{Site, Options, native}
use rosplus.Scripts.Dds.Load.Laws.{IsWorking}
use rosplus.Scripts.Lab.Counting.{Counting}
use rosplus.Scripts.Lab.Waiting.{IsTicking}
use rosplus.Scripts.Lab.Cleanup.Laws.{IsReaping, is_ended}

pub record Bench : Type 0 where
  pub clock : ℕ
  pub started : ℕ
  pub over : ℕ → Bool
  pub heard : List Json

abbrev ends : ℕ → Bench → Bench
ends p s = record s { over = λ q. nat_beq q p || s.over q }

abbrev killed : Signal → ℕ → Bench → Bench
killed sigkill p s = ends p s
killed sigterm p s = s
killed sigint p s = s

abbrev performed : Call → Bench → Result Json × Bench
performed spin_once s =
    (ok null, record s { clock = s.clock + 1000; heard = s.heard ++ str "message" ∷ [] })
performed wait_for_server s = (ok (bool true), s)
performed (wait_for_service name) s = (ok (bool true), s)
performed _ s = (ok null, s)

abbrev waited : ℕ → Bench → Bool × Bench
waited p s =
    if s.over p
    then (true, s)
    else (if not (nat_beq (p % 4) 0) then (true, ends p s) else (false, s))

abbrev pub bench : Lab
bench = record {
  State = Bench;
  clock = λ s. s.clock;
  poll = λ p s. if s.over p then some (exited 0) else none;
  errors = λ p s. "";
  popen = λ command s. (ok (suc s.started), record s { started = suc s.started });
  killpg = λ sig p s. (ok tt, killed sig p s);
  wait = λ p n s. waited p s;
  join = λ p s. ends p s;
  sleep = λ n s. record s { clock = s.clock + n };
  perform = performed;
  heard = λ s. s.heard;
  publisher_links = λ s. 1;
  subscription_links = λ s. 1;
  recorded = λ name s.
      ("/migration/output", "ALPHA:seen")
      ∷ ("/chatter", "hello")
      ∷ ("/migration/output", "BETA 2:seen")
      ∷ ("/migration/output", "GAMMA:seen")
      ∷ [];
  log = λ s. "[listener]: I heard: [Hello World: 1]\n{}\n";
  report = λ s. ok (obj (field "received_messages" (num 10) end));
  write = λ name j s. (ok tt, s);
}

abbrev pub fresh : Session bench
fresh = record {
  world = record { clock = 0; started = 0; over = λ p. false; heard = [] };
  processes = [];
}

-- The state in which a run has ended.
abbrev pub end_of : Option (Result (Unit {0}) × Session bench) → Session bench
end_of none = fresh
end_of (some (r, s)) = s

performed-later : (c : Call) (s : Bench) → s.clock ≤ (performed c s).1.clock
performed-later spin_once s = omega arith
performed-later wait_for_server s = omega arith
performed-later (wait_for_service name) s = omega arith
performed-later _ s = omega arith

killed-keeps :
    (sig : Signal) (p q : ℕ) (s : Bench) → s.over p ≡ true → (killed sig q s).over p ≡ true
killed-keeps sigkill p q s h = ground arith
killed-keeps sigterm p q s h = h
killed-keeps sigint p q s h = h

abbrev Dead : ℕ → Bench → Type 0
Dead p s = is_ended (if s.over p then some (exited 0) else none) ≡ true

over_of : (p : ℕ) (s : Bench) → Dead p s → s.over p ≡ true
over_of p s h = ground arith

shown : (p : ℕ) (s : Bench) → s.over p ≡ true → Dead p s
shown p s h = rw h refl

pub bench-IsTicking : IsTicking bench
bench-IsTicking = record {
  tick-sleep = λ n s h. omega arith;
  tick-perform = performed-later;
  tick-spin = λ s. omega arith;
}

-- The processes of a bench that has started so many.
abbrev pub born : ℕ → List ℕ
born zero = []
born (suc n) = born n ++ suc n ∷ []

pub born-performed : (c : Call) (s : Bench) → born (performed c s).1.started ≡ born s.started
born-performed spin_once s = refl
born-performed wait_for_server s = refl
born-performed (wait_for_service name) s = refl
born-performed _ s = refl

pub born-killed :
    (sig : Signal) (p : ℕ) (s : Bench) → born (killed sig p s).started ≡ born s.started
born-killed sigkill p s = refl
born-killed sigterm p s = refl
born-killed sigint p s = refl

abbrev pub bench_counts : Counting bench
bench_counts = record {
  started = λ s. born s.started;
  started-popen = λ command pid s h.
      let same : suc s.started ≡ pid = ground arith in ap (λ n. born s.started ++ n ∷ []) same;
  started-refused = λ command e s h. absurd (ground arith);
  started-killpg = born-killed;
  started-wait = λ p n s. ground arith;
  started-join = λ p s. refl;
  started-sleep = λ n s. refl;
  started-perform = born-performed;
  started-write = λ path j s. refl;
}

pub bench-IsReaping : IsReaping bench
bench-IsReaping = record {
  ended-killpg = λ sig p q s h. shown p (killed sig q s) (killed-keeps sig p q s (over_of p s h));
  ended-wait = λ n p q s h. ground arith;
  ended-join = λ p q s h. ground arith;
  killpg-ok = λ sig p s h. refl;
  wait-ended = λ n p s h. ground arith;
  wait-live = λ n p s h. ground arith;
  join-ended = λ p s. ground arith;
}

pub bench-IsWorking : IsWorking bench
bench-IsWorking = record {
  affinity = λ cores s. (null, refl);
  stop = λ s. (null, refl);
  start = λ n s. (null, refl);
  join = λ n s. (null, refl);
  alive = λ n s. (null, refl);
  kill = λ n s. (null, refl);
}

-- A benchmark under load of the native endpoints, on two cores.
abbrev pub site : Site
site = record {
  root = "/opt/rosplus";
  directory = "/tmp/dds";
  adapter = "/opt/rosplus/build/librosplus_rcl.so";
  cores = 0 ∷ 1 ∷ [];
  loads = λ line.
      if line == "{}" then some (obj (field "event" (str "publisher_summary") end)) else none;
  percentage = λ samples. num 82;
}

abbrev pub options : Options
options = record {
  output = "out.json";
  messages = 10;
  size = 64;
  frequency = 100;
  implementation = native;
  fifo = false;
  load = true;
}

-- A subscriber to which each spin brings one message, sent at 3 and received at 5.
abbrev pub post : Post bench
post = record {
  int = λ s. if s == "3" then some (pos 3) else none;
  delivered = λ w. (5, "rosplus-latency:0:3:xx") ∷ [];
  set_fifo = λ w. (ok tt, w);
  save = λ scheduling summary w. (ok tt, w);
}

abbrev pub silent : Listener bench
silent = record { world = fresh.world; tally = record { count = 0; latencies = [] } }

abbrev pub heard_by : Option (Result (Unit {0}) × Listener bench) → Listener bench
heard_by none = silent
heard_by (some (r, s)) = s
