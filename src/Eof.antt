-- ===== src/Eof.antt =====
-- lib/assigner/evmone/eof.hpp and the constants and small helpers of lib/assigner/evmone/eof.cpp:
-- the errors of EOF validation, the header of a version 1 container, and its readers. A
-- container is the list of its bytes; an iterator into it is the bytes from there on.
pub mod Headers
pub mod Types
pub mod Code
pub mod Jumps
pub mod StackHeight
pub mod Validate
pub mod ReadHeader
pub mod Inversion
pub mod Grammar
pub mod Machine
pub mod Sections
pub mod Complete
pub mod Readers
pub mod Starts
pub mod Rules
pub mod Targets
pub mod Marks
pub mod Count
pub mod Covers
pub mod Visit
pub mod Terminates
pub mod Bodies
pub mod Total
mod Tests
use evm_assigner.Base.{
  ℕ, zero, suc, ◌+◌, ◌-◌, ◌*◌, ◌%◌, ◌^◌, ℤ, pos, ◌-ℤ◌, Bool, true, false, ◌&&◌, ◌==◌, ltb, leb,
  if◌then◌else◌, Option, none, some, List, [], ◌∷◌, ◌++◌, length, get_or, take, drop,
}

pub data EofValidationError : Type 0 where
  success starts_with_format invalid_prefix eof_version_mismatch : EofValidationError
  eof_version_unknown incomplete_section_size incomplete_section_number : EofValidationError
  header_terminator_missing type_section_missing code_section_missing : EofValidationError
  data_section_missing zero_section_size section_headers_not_terminated : EofValidationError
  invalid_section_bodies_size undefined_instruction truncated_instruction : EofValidationError
  invalid_rjump_destination too_many_code_sections invalid_type_section_size : EofValidationError
  invalid_first_section_type invalid_max_stack_height no_terminating_instruction :
      EofValidationError
  stack_height_mismatch stack_higher_than_outputs_required : EofValidationError
  max_stack_height_above_limit inputs_outputs_num_above_limit : EofValidationError
  unreachable_instructions stack_underflow stack_overflow : EofValidationError
  invalid_code_section_index invalid_dataloadn_index : EofValidationError
  jumpf_destination_incompatible_outputs invalid_non_returning_flag : EofValidationError
  callf_to_non_returning_function impossible : EofValidationError

-- `std::variant` of a value and an error.
pub data Validated {ℓ} (A : Type ℓ) : Type ℓ where
  valid : A → Validated A
  invalid : EofValidationError → Validated A

infixl 5 ◌>>=◌ ◌>>◌
abbrev pub ◌>>=◌ {ℓ κ} : {A : Type ℓ} {B : Type κ} → Validated A → (A → Validated B) → Validated B
valid a >>= f = f a
invalid e >>= f = invalid e

abbrev pub ◌>>◌ {ℓ} : {B : Type ℓ} → Validated (Unit {0}) → Validated B → Validated B
m >> k = m >>= λ _. k

-- `if (failed) return error;`
abbrev pub fail_if : Bool → EofValidationError → Validated (Unit {0})
fail_if true e = invalid e
fail_if false e = valid tt

-- What follows a validation that may run out of fuel, which is `none`.
abbrev pub and_then {ℓ κ} :
    {A : Type ℓ} {B : Type κ}
    → Option (Validated A)
    → (A → Option (Validated B))
    → Option (Validated B)
and_then none f = none
and_then (some (invalid error)) f = some (invalid error)
and_then (some (valid a)) f = f a

abbrev pub map_some {ℓ κ} : {A : Type ℓ} {B : Type κ} → (A → B) → Option A → Option B
map_some f none = none
map_some f (some a) = some (f a)

abbrev pub terminator : ℕ
terminator = 0x00

abbrev pub type_section : ℕ
type_section = 0x01

abbrev pub code_section : ℕ
code_section = 0x02

abbrev pub data_section : ℕ
data_section = 0x04

abbrev pub code_section_number_limit : ℕ
code_section_number_limit = 1024

abbrev pub max_stack_height_limit : ℕ
max_stack_height_limit = 0x03ff

abbrev pub outputs_inputs_number_limit : ℕ
outputs_inputs_number_limit = 0x7f

abbrev pub rel_offset_size : ℕ
rel_offset_size = 2

abbrev pub stack_size_limit : ℕ
stack_size_limit = 1024

abbrev pub non_returning_function : ℕ
non_returning_function = 0x80

pub record EofCodeType : Type 0 where
  pub inputs : ℕ
  pub outputs : ℕ
  pub max_stack_height : ℕ

abbrev pub default_type : EofCodeType
default_type = record { inputs = 0; outputs = 0; max_stack_height = 0 }

pub record Eof1Header : Type 0 where
  pub version : ℕ
  pub code_sizes : List ℕ
  pub code_offsets : List ℕ
  pub data_size : ℕ
  pub types : List EofCodeType

-- `substr` of the container.
abbrev pub substr : List ℕ → ℕ → ℕ → List ℕ
substr container offset count = take count (drop offset container)

unfoldable pub get_code : Eof1Header → List ℕ → ℕ → List ℕ
get_code header container code_idx =
    substr container (get_or header.code_offsets code_idx 0) (get_or header.code_sizes code_idx 0)

-- `std::vector::back`.
abbrev pub last_or_zero : List ℕ → ℕ
last_or_zero [] = 0
last_or_zero (x ∷ []) = x
last_or_zero (x ∷ (y ∷ ys)) = last_or_zero (y ∷ ys)

unfoldable pub get_data : Eof1Header → List ℕ → List ℕ
get_data header container =
    if header.data_size == 0
    then []
    else substr container (last_or_zero header.code_offsets + last_or_zero header.code_sizes)
        header.data_size

-- The number that two bytes make.
abbrev pub uint16_be : ℕ → ℕ → ℕ
uint16_be h l = h * 256 + l

abbrev pub read_uint16_be : List ℕ → ℕ → ℕ
read_uint16_be bytes i = uint16_be (get_or bytes i 0) (get_or bytes (i + 1) 0)

-- The upper half of the numbers is negative.
abbrev pub to_int16 : ℕ → ℤ
to_int16 v = if ltb v (2 ^ 15) then pos v else pos v -ℤ pos (2 ^ 16)

abbrev pub read_int16_be : List ℕ → ℕ → ℤ
read_int16_be bytes i = to_int16 (read_uint16_be bytes i)

-- The entries of the array that are read: those of the type, the code and the data section.
pub record EofSectionHeaders : Type 0 where
  pub type_sizes : List ℕ
  pub all_code_sizes : List ℕ
  pub data_sizes : List ℕ

abbrev pub no_headers : EofSectionHeaders
no_headers = record { type_sizes = []; all_code_sizes = []; data_sizes = [] }

-- `section_headers[section_id].emplace_back(section_size)`.
abbrev pub emplace_back : EofSectionHeaders → ℕ → ℕ → EofSectionHeaders
emplace_back headers section_id section_size =
    if section_id == type_section
    then record headers { type_sizes = headers.type_sizes ++ (section_size ∷ []) }
    else if section_id == code_section
    then record headers { all_code_sizes = headers.all_code_sizes ++ (section_size ∷ []) }
    else if section_id == data_section
    then record headers { data_sizes = headers.data_sizes ++ (section_size ∷ []) }
    else headers

-- Magic, version, two sections with one size, the code sections' number and sizes, and the
-- terminator.
unfoldable pub eof_header_size : EofSectionHeaders → ℕ
eof_header_size headers = 2 + 1 + 2 * 3 + 1 + 2 + length headers.all_code_sizes * 2 + 1

unfoldable pub get_section_missing_error : ℕ → EofValidationError
get_section_missing_error section_id =
    if section_id == terminator
    then header_terminator_missing
    else if section_id == type_section
    then type_section_missing
    else if section_id == code_section
    then code_section_missing
    else if section_id == data_section
    then data_section_missing
    else impossible

-- `container[0] == MAGIC[0] && container[1] == MAGIC[1]`.
abbrev pub has_magic : List ℕ → Bool
has_magic container = get_or container 0 0 == 0xef && get_or container 1 0 == 0x00

unfoldable pub is_eof_container : List ℕ → Bool
is_eof_container container = ltb 1 (length container) && has_magic container

unfoldable pub get_eof_version : List ℕ → ℕ
get_eof_version container =
    if leb 3 (length container) && has_magic container then get_or container 2 0 else 0
