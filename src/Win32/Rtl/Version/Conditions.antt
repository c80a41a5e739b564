-- ===== src/Win32/Rtl/Version/Conditions.antt =====
-- How VerSetConditionMask and RtlVerifyVersionInfo fit together.
use native.Mathlib.Nat.{pow-suc}
use windows_10_js.Prelude.{ℕ, zero, suc, ◌*◌, ◌%◌, ◌^◌, ◌≡◌, ◌<◌, refl, List, [], ◌∷◌, arith}
use windows_10_js.Hal.Memory.{Memory}
use windows_10_js.Win32.Rtl.Version.{
  holds, checks_of, check_all, rtl_verify_version_info, ver_set_condition_mask,
}

check_all-zero :
    (condition : ℕ) (checks : List (ℕ × ℕ)) → condition % 8 ≡ 0 → check_all condition checks ≡ 0
unfolding check_all holds
check_all-zero condition [] h = refl
check_all-zero condition ((e, a) ∷ checks) h = rw h (check_all-zero condition checks h)

eights : (k : ℕ) → 2 ^ (suc k * 3) ≡ 8 * 2 ^ (k * 3)
eights k =
    let three : suc k * 3 ≡ suc (suc (suc (k * 3))) = omega arith in
    rw (three, pow-suc 2 (suc (suc (k * 3))), pow-suc 2 (suc (k * 3)), pow-suc 2 (k * 3))
      (omega arith)

pow_mod : (t c : ℕ) → 0 < t → c * 2 ^ (t * 3) % 8 ≡ 0
pow_mod zero c h = absurd (omega arith)
pow_mod (suc k) c h =
    let regroup : c * (8 * 2 ^ (k * 3)) ≡ 8 * (c * 2 ^ (k * 3)) = grind arith in
    rw (eights k, regroup) (omega arith)

-- A condition that VerSetConditionMask has put into a mask whose low 3 bits are clear, for any type
-- mask but 0, is not looked at by RtlVerifyVersionInfo: it answers 0 (the version fits) for every
-- version that is asked for, and every choice of fields.
pub ver_set_condition_mask-ignored :
    (info types mask type_mask condition : ℕ) (m : Memory)
    → mask % 8 ≡ 0
    → 0 < type_mask
    → type_mask < 0x1_0000_0000
    → rtl_verify_version_info info types (ver_set_condition_mask mask type_mask condition) m ≡ 0
unfolding rtl_verify_version_info ver_set_condition_mask
ver_set_condition_mask-ignored info types mask type_mask condition m low pos small =
    check_all-zero (ver_set_condition_mask mask type_mask condition) (checks_of info types m) (
      let fits : type_mask % 0x1_0000_0000 ≡ type_mask = omega arith in
      rw fits (omega (arith, pow_mod type_mask (condition % 0x1_0000_0000) pos)))
