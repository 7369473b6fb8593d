-- ===== src/Directory/Parser.antt =====
-- win_io/include/win_io/read_directory_changes.h: DirectoryChangesRange and its iterator, which
-- read the FILE_NOTIFY_INFORMATION records of a buffer. `Memory` maps an address to its byte.
-- Addresses do not wrap; counts of bytes are `std::size_t`.
pub mod Layout
pub mod Iteration
pub mod Examples
use win_io.Base.{
  ℕ, zero, suc, ◌+◌, ◌-◌, ◌*◌, ◌/◌, ◌%◌, ◌^◌, Bool, not, ◌&&◌, Option, none, some, List, [], ◌∷◌,
  leb, ◌==◌, if◌then◌else◌,
}
use win_io.Base.Outcome.{Outcome, done, ◌>>=◌, ◌>>◌, assert}
use win_io.Os.{Ptr, null, is_null}
use win_io.Port.{PortEntry}

abbrev pub Memory : Type 0
Memory = Ptr → ℕ

abbrev pub word : Memory → Ptr → ℕ
word mem a = mem a + 256 * mem (a + 1)

abbrev pub dword_at : Memory → Ptr → ℕ
dword_at mem a = word mem a + 2 ^ 16 * word mem (a + 2)

abbrev pub size_t : ℕ → ℕ
size_t n = n % 2 ^ 64

-- The characters of a `std::wstring_view` of the given length.
abbrev pub chars : Memory → Ptr → ℕ → List ℕ
chars mem a zero = []
chars mem a (suc n) = word mem a ∷ chars mem (a + 2) n

pub record DirectoryChange : Type 0 where
  pub action : ℕ
  pub name : List ℕ

-- The fields of FILE_NOTIFY_INFORMATION: three DWORDs and the name.
abbrev pub next_entry_offset : Memory → Ptr → ℕ
next_entry_offset mem p = dword_at mem p

abbrev pub action_at : Memory → Ptr → ℕ
action_at mem p = dword_at mem (p + 4)

abbrev pub file_name_length : Memory → Ptr → ℕ
file_name_length mem p = dword_at mem (p + 8)

-- sizeof(FILE_NOTIFY_INFORMATION): the name begins at 12, and its one character is padded.
abbrev pub sizeof_info : ℕ
sizeof_info = 16

-- detail::GetInfo, which `GetValue` and `GetInfoSize` call on a pointer.
abbrev pub get_info : Ptr → Outcome Ptr
get_info p = do assert (not (is_null p)); done p

-- detail::GetValue
unfoldable pub get_value : Memory → Ptr → Outcome DirectoryChange
get_value mem p = do
  info ← get_info p
  let name_length = file_name_length mem info / 2
  done (record { action = action_at mem info; name = chars mem (info + 12) name_length })

-- detail::GetInfoSize: the record with no padding behind the name.
abbrev pub info_size : Memory → Ptr → ℕ
info_size mem info = size_t (sizeof_info - 4 + file_name_length mem info)

unfoldable pub get_info_size : Memory → Ptr → Outcome ℕ
get_info_size mem p = do info ← get_info p; done (info_size mem info)

-- DirectoryChangesIterator. Its `value_` only holds what `*` read last.
pub record Iterator : Type 0 where
  pub current : Ptr
  pub consumed_size : ℕ
  pub max_size : ℕ

-- DirectoryChangesIterator()
abbrev pub end_iterator : Iterator
end_iterator = record { current = null; consumed_size = 0; max_size = 0 }

-- DirectoryChangesIterator(buffer, max_size)
unfoldable pub iterator : Memory → Ptr → ℕ → Outcome Iterator
unfolding get_info_size
iterator mem buffer max_size =
    let current = if max_size == 0 then null else buffer in
    let it : Iterator = record { current = current; consumed_size = 0; max_size = max_size } in
    if not (is_null current)
    then (do size ← get_info_size mem current; assert (leb size max_size); done it)
    else done it

-- operator*
unfoldable pub deref : Memory → Iterator → Outcome DirectoryChange
unfolding get_value
deref mem it = get_value mem it.current

-- move_to_next
unfoldable pub move_to_next : Memory → Iterator → Outcome Iterator
unfolding get_info_size
move_to_next mem it = do
  assert (not (is_null it.current))
  assert (leb it.consumed_size it.max_size)
  info ← get_info it.current
  let consumed = size_t (it.consumed_size + info_size mem info)
  if next_entry_offset mem info == 0
      then done (record it { current = null; consumed_size = consumed })
      else do
        let current = it.current + next_entry_offset mem info
        size ← get_info_size mem current
        assert (leb (size_t (consumed + size)) it.max_size)
        done (record it { current = current; consumed_size = consumed })

-- available_size
unfoldable pub available_size : Iterator → Outcome ℕ
available_size it = do
  assert (leb it.consumed_size it.max_size)
  done (it.max_size - it.consumed_size)

-- operator++(): the iterator afterwards, and the one that is returned.
unfoldable pub pre_increment : Memory → Iterator → Outcome (Iterator × Iterator)
pre_increment mem it = do
  it' ← move_to_next mem it
  size ← available_size it'
  returned ← iterator mem it'.current size
  done (it', returned)

-- operator++(int): the iterator afterwards, and the one that is returned.
unfoldable pub post_increment : Memory → Iterator → Outcome (Iterator × Iterator)
post_increment mem it = do
  size ← available_size it
  it' ← move_to_next mem it
  returned ← iterator mem it.current size
  done (it', returned)

-- operator==
unfoldable pub iterator_eq : Iterator → Iterator → Bool
iterator_eq lhs rhs = lhs.current == rhs.current

pub record Range : Type 0 where
  pub buffer : Ptr
  pub size : ℕ

-- DirectoryChangesRange(buffer, port_changes)
unfoldable pub range_of_entry : Ptr → PortEntry → Range
range_of_entry buffer entry = record { buffer = buffer; size = entry.bytes_transferred }

unfoldable pub has_changes : Range → Bool
has_changes r = not (r.size == 0) && not (is_null r.buffer)

unfoldable pub begin : Memory → Range → Outcome Iterator
unfolding iterator
begin mem r = iterator mem r.buffer r.size

abbrev pub prepend : DirectoryChange → Option (List DirectoryChange) → Option (List DirectoryChange)
prepend c none = none
prepend c (some cs) = some (c ∷ cs)

-- The loop `for (change : range)` of a client, as in LogChanges of fs_changes_print/main.cpp, from an
-- iterator on; `none` means that the fuel has run out.
unfoldable pub changes_from : ℕ → Memory → Iterator → Outcome (Option (List DirectoryChange))
unfolding iterator_eq
changes_from zero mem it = done none
changes_from (suc fuel) mem it =
    let more : Outcome (Option (List DirectoryChange)) = (do
      change ← deref mem it
      (it', _) ← pre_increment mem it
      rest ← changes_from fuel mem it'
      done (prepend change rest)) in
    if iterator_eq it end_iterator then done (some []) else more

unfoldable pub changes : ℕ → Memory → Range → Outcome (Option (List DirectoryChange))
changes fuel mem r = do it ← begin mem r; changes_from fuel mem it
