-- ===== src/Workspace/Templates.antt =====
-- `NAME` and `TEMPLATES` of src/rosplus/workspace.py. A file's path is relative to the workspace.
use Prim.Native.Char.{code}
use rosplus.Base.{ℕ, String, Bool, ◌&&◌, ◌||◌, List, [], ◌∷◌, Option, all, length, leb, nat_beq}
use rosplus.Base.Dict.{Dict, get}

abbrev codes : String → List ℕ
codes String.[] = []
codes (String.◌∷◌ c s) = code c ∷ codes s

abbrev name_char : ℕ → Bool
name_char c =
    (leb b'A' c && leb c b'Z')
    || (leb b'a' c && leb c b'z')
    || (leb b'0' c && leb c b'9')
    || nat_beq c b'_'
    || nat_beq c b'-'

-- `NAME.fullmatch(name)`
unfoldable pub valid_name : String → Bool
valid_name name = let n = length (codes name) in leb 1 n && leb n 64 && all name_char (codes name)

abbrev graph_text : String
graph_text =
    "{\n  \"nodes\": [\n    {\n      \"id\": \"talker\",\n      \"label\": \"Talker\",\n      \"type\": \"publisher\",\n      \"mode\": \"legacy\"\n    },\n    {\n      \"id\": \"listener\",\n      \"label\": \"Listener\",\n      \"type\": \"subscriber\",\n      \"mode\": \"legacy\"\n    }\n  ],\n  \"edges\": [\n    {\n      \"source\": \"talker\",\n      \"target\": \"listener\",\n      \"topic\": \"/chatter\",\n      \"message_type\": \"std_msgs/String\"\n    }\n  ]\n}"

abbrev pub templates : Dict (List (String × String))
templates =
    ("empty", ("README.md", "# ROSPlus workspace\n") ∷ [])
    ∷ (
      "talker_listener",
      (
        "src/talker.py",
        "import time\nfor i in range(5):\n    print(f'chatter: {i}', flush=True)\n    time.sleep(0.1)\n",
      )
          ∷ ("src/listener.py", "print('listener ready', flush=True)\n")
          ∷ ("rosplus.graph.json", graph_text)
          ∷ [],
    )
    ∷ (
      "camera",
      ("README.md", "# Camera workspace\n\nHardware adapter pending device discovery.\n") ∷ [],
    )
    ∷ []

-- `TEMPLATES.get(template)`
unfoldable pub template_files : String → Option (List (String × String))
unfolding get
template_files template = get template templates
