-- ===== src/Cegis/Examples.antt =====
-- Tests of the probes: a rounding to tenths downwards.
use continuous_agent.Prelude.{◌≡◌, refl, false, some, List, [], ◌∷◌, arith}
use continuous_agent.Prelude.Int.{ℤ, pos, negsuc, ◌-ℤ◌}
use continuous_agent.Packing.Volume.{AllWithin}
use continuous_agent.Cegis.{whole, new_suite, get_probes, adversarial_seq, run_cegis_funsearch}
use continuous_agent.Cegis.Probes.{
  IsRounding, registered, get_probes-AllWithin, run_cegis_funsearch-once,
}

-- Sizes that are tenths already stay as they are.
abbrev exact : ℤ → ℤ
exact x = x

exact-IsRounding : IsRounding exact
exact-IsRounding = record {
  keeps_whole = λ n. refl;
  keeps_rounded = λ x. refl;
  stays = λ lo hi x l h below above. (below, above);
}

-- One capacity in range, one below the item.
abbrev found : List (ℤ × ℤ)
found = (whole 30, whole 70) ∷ (whole 20, negsuc 4) ∷ []

first_probe :
    adversarial_seq exact (whole 30) (whole 70) ≡ whole 40 ∷ whole 30 ∷ whole 30 ∷ whole 70 ∷ []
unfolding adversarial_seq ◌-ℤ◌
first_probe = refl

new_suite-AllWithin : AllWithin (pos 0) (whole 100) (get_probes new_suite)
unfolding get_probes
new_suite-AllWithin = ground arith

get_probes-AllWithin_example :
    AllWithin (pos 0) (whole 100) (get_probes (registered exact found new_suite))
get_probes-AllWithin_example =
    get_probes-AllWithin exact exact-IsRounding found new_suite new_suite-AllWithin

abbrev score : List (List ℤ) → ℤ
score probes = pos 800

run_cegis_funsearch-once_example :
    run_cegis_funsearch exact false (some (whole 30, whole 70)) score (pos 880) 10 new_suite
    ≡ run_cegis_funsearch exact false (some (whole 30, whole 70)) score (pos 880) 1 new_suite
run_cegis_funsearch-once_example =
    run_cegis_funsearch-once exact false (some (whole 30, whole 70)) score (pos 880) 9 new_suite
