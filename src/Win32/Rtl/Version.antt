-- ===== src/Win32/Rtl/Version.antt =====
-- The version of the system in rtl.js. Masks are numbers below 2 ^ 63: the code's doubles hold
-- what these functions make of them exactly.
pub mod Conditions
use Prim.Native.Nat.{bit_and}
use windows_10_js.Prelude.{
  ℕ, zero, suc, ◌+◌, ◌*◌, ◌/◌, ◌%◌, ◌^◌, Bool, true, false, not, ◌&&◌, List, [], ◌∷◌, ◌++◌, ◌==◌,
  ltb, leb, if◌then◌else◌,
}
use windows_10_js.Hal.Memory.{Memory, read32, write8, write16, write32}

abbrev pub major : ℕ
major = 10

abbrev pub minor : ℕ
minor = 0

abbrev pub build : ℕ
build = 19045

-- STATUS_REVISION_MISMATCH as the code has it, as a bit pattern.
abbrev pub revision_mismatch : ℕ
revision_mismatch = 0xC000_0428

-- Whether `actual op expected` holds, for the low 3 bits `op` of a condition.
unfoldable pub holds : (op expected actual : ℕ) → Bool
holds op expected actual =
    if op == 1
    then actual == expected
    else if op == 2
    then ltb expected actual
    else if op == 4
    then ltb actual expected
    else if op == 3
    then leb expected actual
    else if op == 5
    then leb actual expected
    else true

abbrev chosen : Bool → ℕ × ℕ → List (ℕ × ℕ)
chosen true check = check ∷ []
chosen false check = []

-- The fields that the type mask selects, each with our version's.
unfoldable pub checks_of : (info type_mask : ℕ) → Memory → List (ℕ × ℕ)
checks_of info type_mask m =
    chosen (not (bit_and type_mask 1 == 0)) (read32 m (info + 4), major)
    ++ chosen (not (bit_and type_mask 2 == 0)) (read32 m (info + 8), minor)
    ++ chosen (not (bit_and type_mask 4 == 0)) (read32 m (info + 12), build)

unfoldable pub check_all : (condition : ℕ) → List (ℕ × ℕ) → ℕ
unfolding holds
check_all condition [] = 0
check_all condition ((expected, actual) ∷ checks) =
    if holds (condition % 8) expected actual then check_all condition checks else revision_mismatch

unfoldable pub rtl_verify_version_info : (info type_mask condition : ℕ) → Memory → ℕ
unfolding checks_of check_all
rtl_verify_version_info info type_mask condition m =
    check_all condition (checks_of info type_mask m)

unfoldable pub ver_set_condition_mask : (mask type_mask condition : ℕ) → ℕ
ver_set_condition_mask mask type_mask condition =
    mask + condition % 0x1_0000_0000 * 2 ^ (type_mask % 0x1_0000_0000 * 3)

unfoldable pub rtl_get_version : ℕ → Memory → Memory
rtl_get_version info m =
    let m = write32 m (info + 4) major in
    let m = write32 m (info + 8) minor in
    let m = write32 m (info + 12) build in
    let m = write32 m (info + 16) 2 in
    let m = write16 m (info + 0x114) 0x100 in write8 m (info + 0x116) 1
