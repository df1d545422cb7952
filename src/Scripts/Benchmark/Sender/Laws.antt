-- ===== src/Scripts/Benchmark/Sender/Laws.antt =====
-- The messages of scripts/stock_benchmark.py between its publisher and its subscriber.
use Prim.Native.String.{count}
use Prim.Native.Char.{Char, code}
use text.Mathlib.TextLemmas.{nil-append, cons-append, append_assoc, length-append}
use rosplus.Base.{
  ℕ, zero, suc, ◌+◌, ◌-◌, ◌≤◌, ◌/◌, ◌%◌, ◌≡◌, refl, String, ◌<>◌, Bool, true, false, not, ◌&&◌,
  Option, some, List, [], ◌∷◌, ◌++◌, arith, nat_beq, ltb, leb, if◌then◌else◌, Bool-cases, inl, inr,
}
use rosplus.Base.Int.{ℤ, pos}
use rosplus.Base.Text.{digit, decimal_of, decimal}
use rosplus.Exec.{ok}
use rosplus.Paths.{split}
use rosplus.Scripts.Benchmark.{Tally, received}
use rosplus.Scripts.Benchmark.Sender.{padding, prefix_of, payload}

-- No character has the number.
abbrev lacks : ℕ → String → Bool
lacks n String.[] = true
lacks n (String.◌∷◌ c s) = not (nat_beq (code c) n) && lacks n s

lacks-append :
    (n : ℕ) (s t : String) → lacks n s ≡ true → lacks n t ≡ true → lacks n (s <> t) ≡ true
lacks-append n String.[] t h k = rw (nil-append t) k
lacks-append n (String.◌∷◌ c s) t h k = rw (cons-append c s t) (ground (arith, lacks-append n s t))

abbrev colon : Char
colon = ":"

split-colon : (s t : String) → lacks b':' s ≡ true → split b':' (s <> (":" <> t)) ≡ s ∷ split b':' t
unfolding split
split-colon String.[] t h = rw (nil-append (":" <> t), cons-append colon "" t, nil-append t) refl
split-colon (String.◌∷◌ c s) t h =
    let plain : nat_beq (code c) b':' ≡ false = ground arith in
    let rest = split-colon s t (ground arith) in
    rw (cons-append c s (":" <> t), split, plain, rest) refl

digit-lacks : (n : ℕ) → lacks b':' (digit n) ≡ true
digit-lacks zero = refl
digit-lacks (suc zero) = refl
digit-lacks (suc (suc zero)) = refl
digit-lacks (suc (suc (suc zero))) = refl
digit-lacks (suc (suc (suc (suc zero)))) = refl
digit-lacks (suc (suc (suc (suc (suc zero))))) = refl
digit-lacks (suc (suc (suc (suc (suc (suc zero)))))) = refl
digit-lacks (suc (suc (suc (suc (suc (suc (suc zero))))))) = refl
digit-lacks (suc (suc (suc (suc (suc (suc (suc (suc zero)))))))) = refl
digit-lacks _ = refl

decimal_of-lacks : (fuel n : ℕ) → lacks b':' (decimal_of fuel n) ≡ true
unfolding decimal_of
decimal_of-lacks zero n = refl
decimal_of-lacks (suc fuel) n = elim (Bool-cases (ltb n 10)) [
  | inl small ↦ rw (decimal_of, small) (digit-lacks n)
  | inr large ↦
      rw (decimal_of, large)
        (lacks-append b':' (decimal_of fuel (n / 10)) (digit (n % 10))
          (decimal_of-lacks fuel (n / 10)) (digit-lacks (n % 10)))
]

decimal-lacks : (n : ℕ) → lacks b':' (decimal n) ≡ true
unfolding decimal
decimal-lacks n = decimal_of-lacks (suc n) n

split-some : (s : String) → (p : String) × (ps : List String) × (split b':' s ≡ p ∷ ps)
unfolding split
split-some String.[] = ("", [], refl)
split-some (String.◌∷◌ c s) = elim (Bool-cases (nat_beq (code c) b':')) [
  | inl sep ↦ ("", split b':' s, rw (split, sep) refl)
  | inr plain ↦ let (p, ps, e) = split-some s in (String.◌∷◌ c p, ps, rw (split, plain, e) refl)
]

layout :
    (a b c d : String)
    → ((a <> ":") <> (b <> (":" <> (c <> ":")))) <> d
      ≡ a <> (":" <> (b <> (":" <> (c <> (":" <> d)))))
layout a b c d = simp append_assoc

payload-split :
    (size number stamp : ℕ)
    → let rest = padding (size - count (prefix_of number stamp)) in
      split b':' (payload size number stamp)
      ≡ "rosplus-latency" ∷ decimal number ∷ decimal stamp ∷ split b':' rest
unfolding payload
payload-split size number stamp =
    let mark : String = "rosplus-latency" in
    let x = decimal number in
    let y = decimal stamp in
    let pad = padding (size - count (prefix_of number stamp)) in
    rw
      (
        layout mark x y pad,
        split-colon mark (x <> (":" <> (y <> (":" <> pad)))) refl,
        split-colon x (y <> (":" <> pad)) (decimal-lacks number),
        split-colon y pad (decimal-lacks stamp),
      )
      refl

padding-length : (n : ℕ) → count (padding n) ≡ n
unfolding padding
padding-length zero = refl
padding-length (suc n) =
    let front = length-append "x" (padding n) in let rest = padding-length n in omega arith

-- Where `int` reads the digits of the time, a message that the publisher made at one time and the
-- subscriber gets at a later one is counted, and adds a sample of the time between. The message has
-- as many characters as was asked for, or those of its prefix where these are more.
pub received-payload :
    (int : String → Option ℤ) (size number stamp now : ℕ) (t : Tally)
    → int (decimal stamp) ≡ some (pos stamp)
    → stamp ≤ now
    → (received int now (payload size number stamp) t
        ≡ ok (record { count = t.count + 1; latencies = t.latencies ++ pos (now - stamp) ∷ [] }))
      × (count (payload size number stamp)
          ≡ (let own = count (prefix_of number stamp) in if leb size own then own else size))
unfolding received payload
received-payload int size number stamp now t reads later =
    let prefix = prefix_of number stamp in
    let pad = padding (size - count prefix) in
    let (p, ps, e) = split-some pad in
    let ordered : leb stamp now ≡ true = ground arith in
    let whole = length-append prefix pad in
    let filled = padding-length (size - count prefix) in
    (
      rw (received, payload-split size number stamp, e, reads, ordered) refl,
      ground (arith, whole, filled),
    )
