-- ===== src/Disk.antt =====
-- The file system as the program uses it: an unknown state with the calls of `pathlib` and `shutil`
-- that the sources make. `Memory` is an instance.
pub mod Memory
use Prim.Native.Char.{code}
use rosplus.Base.{
  ℕ, ◌≡◌, refl, String, Bool, true, false, ◌&&◌, ◌||◌, List, arith, nat_beq, if◌then◌else◌,
}
use rosplus.Exec.{Result, ok, raise}
use rosplus.Models.{FilePath}
use rosplus.Paths.{path_beq}

pub record Disk : Type 1 where
  pub State : Type 0
  -- `path.resolve()`: symbolic links and `..` are followed
  pub resolve : State → FilePath → Result FilePath
  pub exists : State → FilePath → Bool
  pub is_dir : State → FilePath → Bool
  pub is_file : State → FilePath → Bool
  -- the text that a file holds, decoded
  pub contents : State → FilePath → Result String
  -- `path.stat().st_size`
  pub size : State → FilePath → Result ℕ
  -- the names that `path.iterdir()` gives
  pub names : State → FilePath → Result (List String)
  -- `path.rglob("*" + suffix)`
  pub glob : State → FilePath → String → Result (List FilePath)
  -- `path.mkdir()`
  pub mkdir : FilePath → State → Result (Unit {0}) × State
  -- `path.mkdir(parents=True, exist_ok=True)`
  pub make_dirs : FilePath → State → Result (Unit {0}) × State
  pub write_text : FilePath → String → State → Result (Unit {0}) × State
  -- `shutil.rmtree(path)`
  pub rmtree : FilePath → State → Result (Unit {0}) × State

-- The newlines that `read_text` makes of `\r\n` and `\r`; the flag says that a `\r` came before.
translate_newlines : Bool → String → String
translate_newlines cr String.[] = ""
translate_newlines cr (String.◌∷◌ c s) =
    let rest = translate_newlines (nat_beq (code c) 13) s in
    if nat_beq (code c) 13
    then String.◌∷◌ "\n" rest
    else if cr && nat_beq (code c) 10
    then rest
    else String.◌∷◌ c rest

unfoldable pub universal_newlines : String → String
unfolding translate_newlines
universal_newlines s = translate_newlines false s

abbrev pub has_cr : String → Bool
has_cr String.[] = false
has_cr (String.◌∷◌ c s) = nat_beq (code c) 13 || has_cr s

-- A text with no `\r` is read as it is.
pub universal_newlines-eq : (s : String) → has_cr s ≡ false → universal_newlines s ≡ s
unfolding universal_newlines
universal_newlines-eq String.[] h = refl
universal_newlines-eq (String.◌∷◌ c s) h = ground (arith, universal_newlines-eq s)

module _ (D : Disk) where
  -- `path.read_text()`
  unfoldable pub read_text : D.State → FilePath → Result String
  read_text s p = elim (D.contents s p) [ ok t ↦ ok (universal_newlines t) | raise e ↦ raise e ]

-- What the theorems about files assume: a write that ends well leaves a file with the text, other
-- files as they were, and every link; and making directories leaves the links too.
pub record IsLawful (D : Disk) : Type 0 where
  pub contents-write :
      (p : FilePath) (t : String) (s s' : D.State)
      → D.write_text p t s ≡ (ok tt, s')
      → D.contents s' p ≡ ok t
  pub is_file-write :
      (p : FilePath) (t : String) (s s' : D.State)
      → D.write_text p t s ≡ (ok tt, s')
      → D.is_file s' p ≡ true
  pub contents-write_ne :
      (p q : FilePath) (t : String) (s s' : D.State)
      → D.write_text p t s ≡ (ok tt, s')
      → path_beq q p ≡ false
      → D.contents s' q ≡ D.contents s q
  pub resolve-write :
      (p q : FilePath) (t : String) (s : D.State)
      → D.resolve (D.write_text p t s).1 q ≡ D.resolve s q
  pub resolve-make_dirs :
      (p q : FilePath) (s : D.State) → D.resolve (D.make_dirs p s).1 q ≡ D.resolve s q
