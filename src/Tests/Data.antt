-- ===== src/Tests/Data.antt =====
-- A workspace "w" with one Python file, in memory, and the objects over it.
use rosplus.Base.{ℕ, String, false, none, some, List, [], ◌∷◌, if◌then◌else◌, ◌==◌, arith, eq_iff}
use rosplus.Base.Dict.{get}
use rosplus.Exec.{ok}
use rosplus.Json.{obj, end}
use rosplus.Models.{Workspace, NodeRecord, running, idle, active}
use rosplus.Paths.{name}
use rosplus.Disk.Memory.{Tree, memory}
use rosplus.Safety.Gpio.{Gpio, low}
use rosplus.Safety.Monitor.{Monitor}
use rosplus.Workspace.{Manager, Env}
use rosplus.Workspace.Registry.{IsRegistered}
use rosplus.Process.{Supervisor}
use rosplus.Process.Build.{Compiled, compiled, py_compile_error}
use rosplus.Process.Run.{Launch}
use rosplus.Process.Stop.{Reaction, on_terminate}
use rosplus.Process.Table.{signalled}
use rosplus.Server.{Application}
use rosplus.Server.Request.{Request}
use rosplus.Server.Dispatch.{World}

abbrev pub demo : Workspace
demo = record {
  id = "w";
  name = "demo";
  path = "r" ∷ "w" ∷ [];
  template = "empty";
  status = idle;
  created = "t0";
  last_activity = "t0";
  nodes = [];
  logs = [];
  build_lock = false;
}

abbrev pub tree : Tree
tree =
    ("r" ∷ [], none)
    ∷ ("r" ∷ "w" ∷ [], none)
    ∷ ("r" ∷ "w" ∷ "a.py" ∷ [], some "pass\n")
    ∷ ("r" ∷ "w" ∷ "b.py" ∷ [], some "def\n")
    ∷ []

abbrev pub manager : Manager memory
manager = record { root = "r" ∷ []; items = ("w", demo) ∷ []; disk = tree }

abbrev pub supervisor : Supervisor memory
supervisor = record { manager = manager; processes = [] }

abbrev pub env : Env
env = record { utc = "t1"; uuid = "v" }

abbrev pub launch : Launch
launch = record { utc = "t1"; clock = 9; spawn = ok 7 }

-- A node of the workspace that runs as the process 7.
abbrev pub node : NodeRecord
node = record {
  name = "a";
  target = "a.py";
  mode = "legacy";
  status = running;
  pid = some 7;
  started_monotonic = 9;
  restart_count = 0;
}

abbrev pub busy : Supervisor memory
busy = record {
  manager = record manager {
    items = ("w", record demo { nodes = ("a", node) ∷ []; status = active }) ∷ [];
  };
  processes = (record { ident = "w"; node = "a" }, record { pid = 7; poll = none }) ∷ [];
}

abbrev pub on_signal : ℕ → Reaction
on_signal pid = on_terminate (signalled 15)

abbrev pub compile : List String → Compiled
unfolding name
compile path = if name path == "b.py" then py_compile_error "b.py: invalid syntax" else compiled

abbrev pub gpio : Gpio
gpio = record { state = low; log = [] }

-- A new monitor with a timeout of 10 ms.
abbrev pub monitor : Monitor
monitor = record {
  timeout = 10000;
  gpio = gpio;
  last_heartbeat = 0;
  estop_triggered = false;
  running = false;
  thread = false;
}

abbrev pub app : Application memory
app = record { sup = supervisor; token = "secret"; safety = monitor }

abbrev pub world : World
world = record {
  timestamp = "now";
  env = env;
  launch = launch;
  compile = compile;
  reaction = on_signal;
  unquote = λ s. s;
  lower = λ s. s;
  str_of = λ j. "None";
  loads = λ s. ok (obj end);
  web = none;
}

abbrev pub request : Request
request = record {
  method = "GET";
  path = "/api/v1/workspace/w/files";
  query_path = ".";
  authorization = some "Bearer secret";
  body = ok (obj end);
}

pub manager-IsRegistered : IsRegistered manager
unfolding get
manager-IsRegistered = record {
  keyed = λ i w e. ground (arith, eq_iff "w" i);
  unique = λ i j v w ei ej e. ground (arith, eq_iff "w" i, eq_iff "w" j);
}
