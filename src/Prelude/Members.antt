-- ===== src/Prelude/Members.antt =====
-- Membership of texts by `===`, duplicate-free lists, and the pigeonhole bound.
use Prim.Native.Nat.{suc, ◌≤◌}
use mathlib.Core.Path.{◌≡◌}
use mathlib.Core.Bool.{Bool, true, false}
use mathlib.Core.List.{List, [], ◌∷◌}
use native.Mathlib.Omega.{arith}
use llamacli.Prelude.Tests.{if◌then◌else◌}
use llamacli.Prelude.Lists.{length, any, All}
use llamacli.Prelude.Texts.{Text, text_eq, text_eq_iff}

-- `keys.includes(k)`
abbrev pub contains : List Text → Text → Bool
contains ks k = any (text_eq k) ks

abbrev pub IsIn : List Text → Text → Type 0
IsIn ks k = contains ks k ≡ true

abbrev pub IsNodup : List Text → Type 0
IsNodup [] = Unit
IsNodup (k ∷ ks) = (contains ks k ≡ false) × IsNodup ks

erase : Text → List Text → List Text
erase k [] = []
erase k (j ∷ ks) = if text_eq k j then ks else j ∷ erase k ks

length-erase : (k : Text) (ks : List Text) → IsIn ks k → suc (length (erase k ks)) ≡ length ks
unfolding erase
length-erase k [] h = ground arith
length-erase k (j ∷ ks) h = ground (arith, length-erase k ks)

contains-erase :
    (k j : Text) (ks : List Text) → text_eq j k ≡ false → IsIn ks j → IsIn (erase k ks) j
unfolding erase
contains-erase k j [] ne h = ground arith
contains-erase k j (i ∷ ks) ne h =
    ground (arith, contains-erase k j ks ne, text_eq_iff k i, text_eq_iff j i, text_eq_iff j k)

All-contains-erase :
    (k : Text) (js ks : List Text)
    → contains js k ≡ false
    → All (IsIn ks) js
    → All (IsIn (erase k ks)) js
All-contains-erase k [] ks _ _ = tt
All-contains-erase k (j ∷ js) ks out (h, hs) = (
  contains-erase k j ks (ground (arith, text_eq_iff k j, text_eq_iff j k)) h,
  All-contains-erase k js ks (ground arith) hs,
)

-- Distinct texts that all occur in `ks` are no more than `ks` has.
pub length-le_of_nodup : (js ks : List Text) → IsNodup js → All (IsIn ks) js → length js ≤ length ks
length-le_of_nodup [] ks _ _ = omega arith
length-le_of_nodup (j ∷ js) ks (out, nodup) (h, hs) = omega (
  arith,
  length-erase j ks h,
  length-le_of_nodup js (erase j ks) nodup (All-contains-erase j js ks out hs),
)
