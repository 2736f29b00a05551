-- ===== src/Dedupe/Examples.antt =====
-- The dedupe window at a concrete run.
use classwaves_backend.Prelude.{◌≡◌, true, false, List, [], ◌∷◌, arith, refl, text_eq, codes}
use classwaves_backend.Prelude.Dict
use classwaves_backend.Dedupe.{new_window, is_duplicate}
use classwaves_backend.Dedupe.Window.{Broadcast, broadcast_all, is_duplicate-repeated}

abbrev between : List Broadcast
between =
    record { key = codes "g2"; hash = codes "ready"; now = 1005 }
    ∷ record { key = codes "g1"; hash = codes "busy"; now = 1010 }
    ∷ []

first_passes : (is_duplicate (codes "g1") (codes "busy") 1000 (new_window 25)).0 ≡ false
unfolding is_duplicate Dict.get
first_passes = refl

is_duplicate-repeated_example :
    (is_duplicate
      (codes "g1")
      (codes "busy")
      1020
      (broadcast_all between (is_duplicate (codes "g1") (codes "busy") 1000 (new_window 25)).1)).0
    ≡ true
unfolding text_eq
is_duplicate-repeated_example =
    is_duplicate-repeated (codes "g1") (codes "busy") 1000 1020 between (new_window 25) first_passes
      ((λ e. ground arith), ((λ e. (refl, omega arith)), tt)) (omega arith)
