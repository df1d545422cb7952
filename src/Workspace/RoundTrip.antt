-- ===== src/Workspace/RoundTrip.antt =====
-- `write_file` and then `read_file` of src/rosplus/workspace.py.
use text.Mathlib.TextPositions.{eq_refl}
use rosplus.Base.{
  ℕ, String, ◌<>◌, ◌≡◌, refl, true, arith, some, Option-cases, inl, inr, ◌==◌, if◌then◌else◌,
}
use rosplus.Base.Dict
use rosplus.Base.Dict.{get-put}
use rosplus.Exec.{ok, Result-cases}
use rosplus.Models.{FilePath, Workspace, info, log}
use rosplus.Models.Bounded.{log_frame}
use rosplus.Paths.{child, parent}
use rosplus.Disk.{Disk, IsLawful, universal_newlines}
use rosplus.Workspace.{Manager, FileContent, Saved, language}
use rosplus.Workspace.Registry.{IsRegistered}
use rosplus.Workspace.Files.{safe_path, read_file, write_file}

-- What a successful `write_file` did.
record Written (D : Disk) (utc ident relative content : String) (m m' : Manager D) : Type 0 where
  ws : Workspace
  path : FilePath
  found : Dict.get ident m.items ≡ some ws
  safe : safe_path D m.disk ws relative ≡ ok path
  wrote : D.write_text path content (D.make_dirs (parent path) m.disk).1 ≡ (ok tt, m'.disk)
  logged :
      m'.items ≡ Dict.put ws.id (log utc info ("saved " <> relative) "control-plane" ws) m.items

write_file-Written :
    (D : Disk) (utc ident relative content : String) (m : Manager D) {saved : Saved}
    {m' : Manager D}
    → write_file D utc ident relative content m ≡ (ok saved, m')
    → (w : Written D utc ident relative content m m') × (D.size m'.disk w.path
        ≡ ok saved.size_bytes)
unfolding write_file
write_file-Written D utc ident relative content m h = elim (Option-cases (Dict.get ident m.items)) [
  | inl missing ↦ absurd (ground arith)
  | inr (ws, found) ↦ elim (Result-cases (safe_path D m.disk ws relative)) [
    | inr (e, refused) ↦ absurd (ground arith)
    | inl (path, safe) ↦ (
      record {
        ws = ws;
        path = path;
        found = found;
        safe = safe;
        wrote = ground arith;
        logged = ground (arith, log_frame utc info ("saved " <> relative) "control-plane" ws);
      },
      ground arith,
    )
  ]
]

Written-get :
    {D : Disk} {utc ident relative content : String} {m m' : Manager D}
    (w : Written D utc ident relative content m m')
    → IsRegistered m
    → Dict.get ident m'.items ≡ some (log utc info ("saved " <> relative) "control-plane" w.ws)
Written-get {ident} {m} w reg =
    let e = reg.keyed ident w.ws w.found in rw (w.logged, get-put, e, eq_refl ident)

module _ (D : Disk) (L : IsLawful D) where
  -- Where a path leads does not change when directories are made and a file is written.
  safe_path-write :
      (d : D.State) (dir p : FilePath) (t : String) (ws : Workspace) (relative : String)
      → safe_path D (D.write_text p t (D.make_dirs dir d).1).1 ws relative
        ≡ safe_path D d ws relative
  unfolding safe_path
  safe_path-write d dir p t ws relative =
      let q = child ws.path (if relative == "" then "." else relative) in
      ground (arith, L.resolve-write p q t (D.make_dirs dir d).1, L.resolve-make_dirs dir q d)

  Written-safe :
      {utc ident relative content : String} {m m' : Manager D}
      (w : Written D utc ident relative content m m')
      → safe_path D m'.disk (log utc info ("saved " <> relative) "control-plane" w.ws) relative
        ≡ ok w.path
  unfolding log safe_path
  Written-safe {relative} {content} {m} w =
      ground (
        arith,
        w.safe,
        w.wrote,
        safe_path-write m.disk (parent w.path) w.path content w.ws relative,
      )

  -- What `read_file` gives where its steps end well.
  read_file_lem :
      (later ident relative : String) (m : Manager D) {ws : Workspace} {path : FilePath}
      {text : String} {size : ℕ}
      → Dict.get ident m.items ≡ some ws
      → safe_path D m.disk ws relative ≡ ok path
      → D.is_file m.disk path ≡ true
      → D.contents m.disk path ≡ ok text
      → D.size m.disk path ≡ ok size
      → read_file D later ident relative m ≡ (
        ok (record {
          path = relative;
          content = universal_newlines text;
          language = language path;
          size_bytes = size;
          last_modified = later;
        }),
        m,
      )
  unfolding read_file
  read_file_lem later ident relative m found safe is_file text size = ground arith

  -- A read of the path gives what the write of `content` to it reported as `saved`.
  abbrev pub ReadsBack : String → String → String → String → Saved → Manager D → Type 0
  ReadsBack later ident relative content saved m' =
      (r : FileContent) × (read_file D later ident relative m' ≡ (ok r, m'))
      × (r.content ≡ universal_newlines content)
      × (r.path ≡ relative)
      × (r.size_bytes ≡ saved.size_bytes)

  -- On a lawful file system and a well-formed registry, a write that returned, at any path of a workspace, is what the next read of that path gives:
  -- the read returns too, with the text up to the newlines that reading translates, and with the
  -- size that the write had reported.
  pub read_file-write_file :
      (utc later ident relative content : String) (m : Manager D) {saved : Saved} {m' : Manager D}
      → IsRegistered m
      → write_file D utc ident relative content m ≡ (ok saved, m')
      → ReadsBack later ident relative content saved m'
  read_file-write_file utc later ident relative content m {m'} reg h =
      let (w, sized) = write_file-Written D utc ident relative content m h in
      let d1 = (D.make_dirs (parent w.path) m.disk).1 in
      (
        _,
        read_file_lem later ident relative m' (Written-get w reg) (Written-safe w)
            (L.is_file-write w.path content d1 m'.disk w.wrote)
            (L.contents-write w.path content d1 m'.disk w.wrote) sized,
        refl,
        refl,
        refl,
      )
