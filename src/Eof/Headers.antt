-- ===== src/Eof/Headers.antt =====
-- `validate_eof_headers` of lib/assigner/evmone/eof.cpp: the section headers of a container, read
-- by a machine of three states.
use evm_assigner.Base.{
  ℕ, zero, suc, ◌+◌, ◌*◌, Bool, true, false, not, ◌&&◌, ◌||◌, ◌==◌, ltb, if◌then◌else◌, List, [],
  ◌∷◌, length, drop, get_or,
}
use evm_assigner.Eof.{
  EofValidationError, Validated, valid, invalid, ◌>>=◌, ◌>>◌, fail_if, EofSectionHeaders,
  no_headers, emplace_back, uint16_be, get_section_missing_error, terminator, type_section,
  code_section, data_section, code_section_number_limit, incomplete_section_number,
  incomplete_section_size, zero_section_size, too_many_code_sections,
  section_headers_not_terminated, invalid_section_bodies_size, invalid_type_section_size,
}

pub data HeaderState : Type 0 where
  section_id section_size terminated : HeaderState

-- The variables of the loop; `rest` is the container from the iterator on.
pub record HeaderReader : Type 0 where
  pub state : HeaderState
  pub id : ℕ
  pub section_num : ℕ
  pub section_headers : EofSectionHeaders
  pub rest : List ℕ
  pub expected_section_id : ℕ

-- A number of two bytes and what follows, or `error` when fewer than two bytes are left.
abbrev pub take_uint16 : List ℕ → EofValidationError → Validated (ℕ × List ℕ)
take_uint16 [] error = invalid error
take_uint16 (h ∷ []) error = invalid error
take_uint16 (h ∷ (l ∷ rest)) error = valid (uint16_be h l, rest)

-- The state after the id of a section has been read from `byte`.
unfoldable pub read_section_id : HeaderReader → ℕ → List ℕ → Validated HeaderReader
read_section_id s byte rest =
    let s = record s { id = byte; rest = rest } in
    if not (byte == s.expected_section_id)
    then invalid (get_section_missing_error s.expected_section_id)
    else if byte == terminator
    then valid (record s { state = terminated })
    else if byte == type_section
    then valid (record s { state = section_size; expected_section_id = code_section })
    else if byte == code_section
    then (do
      (section_num, rest) ← take_uint16 rest incomplete_section_number
      fail_if (section_num == 0) zero_section_size
      fail_if (ltb code_section_number_limit section_num) too_many_code_sections
      valid (record s {
        state = section_size;
        section_num = section_num;
        rest = rest;
        expected_section_id = data_section;
      }))
    else valid (record s { state = section_size; expected_section_id = terminator })

-- The sizes of `n` code sections, appended to the headers.
unfoldable pub read_code_sizes :
    ℕ → EofSectionHeaders → List ℕ → Validated (EofSectionHeaders × List ℕ)
read_code_sizes zero headers rest = valid (headers, rest)
read_code_sizes (suc n) headers rest = do
  (size, rest) ← take_uint16 rest incomplete_section_size
  fail_if (size == 0) zero_section_size
  read_code_sizes n (emplace_back headers code_section size) rest

unfoldable pub read_section_size : HeaderReader → Validated HeaderReader
read_section_size s =
    if s.id == code_section
    then (do
      (headers, rest) ← read_code_sizes s.section_num s.section_headers s.rest
      valid (record s { state = section_id; section_headers = headers; rest = rest }))
    else (do
      (size, rest) ← take_uint16 s.rest incomplete_section_size
      fail_if (size == 0 && not (s.id == data_section)) zero_section_size
      valid (record s {
        state = section_id;
        section_headers = emplace_back s.section_headers s.id size;
        rest = rest;
      }))

-- One round of the loop, at a state and the bytes left, which are some.
abbrev pub read_round : HeaderState → List ℕ → HeaderReader → Validated HeaderReader
read_round section_id (byte ∷ rest) s = read_section_id s byte rest
read_round section_size (byte ∷ rest) s = read_section_size s
read_round terminated rest s = valid s
read_round section_id [] s = valid s
read_round section_size [] s = valid s

abbrev pub is_terminated : HeaderState → Bool
is_terminated terminated = true
is_terminated section_id = false
is_terminated section_size = false

abbrev pub is_empty : List ℕ → Bool
is_empty [] = true
is_empty (x ∷ xs) = false

-- The loop ends at the end of the container or in the state `terminated`. Every round reads at
-- least a byte, so with the bytes of the container as fuel it ends before the fuel does.
unfoldable pub read_headers : ℕ → HeaderReader → Validated HeaderReader
read_headers zero s = valid s
read_headers (suc fuel) s =
    if is_empty s.rest || is_terminated s.state
    then valid s
    else (read_round s.state s.rest s >>= read_headers fuel)

abbrev pub first_reader : List ℕ → HeaderReader
first_reader container = record {
  state = section_id;
  id = 0;
  section_num = 0;
  section_headers = no_headers;
  rest = drop 3 container;
  expected_section_id = type_section;
}

abbrev pub sum : List ℕ → ℕ
sum [] = 0
sum (x ∷ xs) = x + sum xs

abbrev pub front : List ℕ → ℕ
front sizes = get_or sizes 0 0

unfoldable pub check_bodies : HeaderReader → Validated EofSectionHeaders
check_bodies s =
    let headers = s.section_headers in
    do
      fail_if (not (is_terminated s.state)) section_headers_not_terminated
      fail_if
          (not (
            front headers.type_sizes + sum headers.all_code_sizes + front headers.data_sizes
            == length s.rest))
          invalid_section_bodies_size
      fail_if (not (front headers.type_sizes == length headers.all_code_sizes * 4))
          invalid_type_section_size
      valid headers

unfoldable pub validate_eof_headers : List ℕ → Validated EofSectionHeaders
validate_eof_headers container =
    read_headers (length container) (first_reader container) >>= check_bodies
