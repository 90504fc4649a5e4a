-- ===== src/Prelude/Texts.antt =====
-- `contains` of a query on a text column, and template strings.

use Prim.Native.String
use Prim.Native.String.append
use Prim.Native.String.{String, ◌++◌ as concat}
use mathlib.Core.Path.{◌≡◌, subst, sym}
use mathlib.Core.Bool.{Bool, true, ◌||◌}
use native.Mathlib.Omega.{arith}
use text.Mathlib.Text.{starts_with}
use text.Mathlib.TextPositions.{starts_with-append}

unfoldable pub contains : String → String → Bool
contains part String.[] = starts_with String.[] part
contains part (String.◌∷◌ c s) = starts_with (String.◌∷◌ c s) part || contains part s

begins-contains : (part s : String) → starts_with s part ≡ true → contains part s ≡ true
unfolding contains
begins-contains part String.[] h = h
begins-contains part (String.◌∷◌ c s) h = ground arith

-- A template string contains what it interpolates.
pub contains-concat :
    (before part after : String) → contains part (concat before (concat part after)) ≡ true
unfolding contains
contains-concat String.[] part after =
    subst (λ t. contains part t ≡ true) (sym (String.append.nil (concat part after)))
      (begins-contains part (concat part after) (starts_with-append part after))
contains-concat (String.◌∷◌ c s) part after =
    let rest = contains-concat s part after in
    subst (λ t. contains part t ≡ true) (sym (String.append.cons c s (concat part after)))
      (ground arith)
