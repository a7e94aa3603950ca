-- ===== src/Examples/Cache.antt =====
-- A cache of numbers, with numbers for bytes, src/core/cache.py.
use sibilla.Base.{ℕ, text, text_key, List, [], ◌∷◌, Option, none, some, false, ◌≡◌, refl}
use sibilla.Base.Int.{◌+ℤ◌}
use sibilla.Float.Fixed.{Fixed, fixed, lit}
use sibilla.Float.Fixed.Laws.{Fixed-IsFloat}
use sibilla.Cache.{Codec, IsCodec, get_key, get_item, get_json, get_or_set, incr}
use sibilla.Cache.Live.{
  Op, run, spec_run, live, value_of, run-live, setting, getting, counting, deleting,
}
use sibilla.Cache.Facade.{get_or_set-cached, incr-expired}
use sibilla.Examples.Fixture.{whole}

-- The bytes of a value are the value; those of null, the text of it.
abbrev codec : Codec (Option ℕ) ℕ
codec = record { dumps = λ v. v; loads = λ b. b; is_empty = λ b. false }

codec-IsCodec : IsCodec codec
codec-IsCodec = record { loads-dumps = λ v. refl; dumps_nonempty = λ v. refl }

abbrev ops : List (Fixed × Op Fixed Fixed)
ops =
    (whole 1, setting (text "a") (whole 7) (some (whole 10)))
    ∷ ((whole 2, counting (text "n") (whole 1) (whole 60))
        ∷ ((whole 20, getting (text "a"))
            ∷ ((whole 21, deleting (text "b"))
                ∷ ((whole 22, counting (text "n") (whole 2) (whole 60)) ∷ []))))

run-live_example :
    (get_key (whole 30) (text "n") (run (λ b. some b) (λ n. n) ops [])).0
    ≡ value_of (live (whole 30) (spec_run (λ b. some b) (λ n. n) ops (λ j. none) (text "n")))
unfolding lit
run-live_example =
    run-live Fixed-IsFloat (λ b. some b) (λ n. n) (whole 0) (whole 30) ops (text "n")
      (refl, tt, (refl, refl, (refl, tt, (refl, tt, (refl, refl, refl)))))

get_or_set-cached_example :
    let first =
      get_or_set codec (text "ats") (whole 1) (whole 2) (text "a") (some 7) (some (whole 10)) [] in
    (first.0 ≡ some 7)
    × ((get_or_set codec
          (text "ats")
          (whole 9)
          (whole 9)
          (text "a")
          (some 8)
          (some (whole 10))
          first.1).0
        ≡ some 7)
unfolding get_json get_key get_item lit ◌+ℤ◌
get_or_set-cached_example =
    get_or_set-cached codec (text "ats") (whole 1) (whole 2) (whole 9) (whole 9) (text "a") 7
      (some 8) (whole 10) [] codec-IsCodec refl refl refl

incr-expired_example :
    (get_key
      (whole 9)
      (text "n")
      (incr
        (λ b. some b)
        (λ n. n)
        (whole 8)
        (text "n")
        (whole 1)
        none
        ((text "n", (whole 4, some (whole 5))) ∷ [])).1).0
    ≡ none
unfolding lit
incr-expired_example =
    incr-expired (λ b. some b) (λ n. n) (whole 8) (whole 9) (whole 1) (text "n") (whole 4) (whole 5)
      ((text "n", (whole 4, some (whole 5))) ∷ []) refl refl
