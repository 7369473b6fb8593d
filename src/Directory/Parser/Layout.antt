-- ===== src/Directory/Parser/Layout.antt =====
-- The layout of the records that ReadDirectoryChangesW documents, said without the parser.
use win_io.Base.{ℕ, ◌+◌, ◌-◌, ◌*◌, ◌≤◌, ◌≡◌, ◌≢◌, refl, List, [], ◌∷◌, length}
use win_io.Os.{Ptr, null}
use win_io.Directory.Parser.{Memory, word, dword_at, chars, DirectoryChange, next_entry_offset}

abbrev pub Chars : Memory → Ptr → List ℕ → Type 0
Chars mem a [] = Unit {0}
Chars mem a (x ∷ xs) = (word mem a ≡ x) × Chars mem (a + 2) xs

-- At `p` stands a record of the change `c`, whole within the next `room` bytes.
pub record Entry (mem : Memory) (p room : ℕ) (c : DirectoryChange) : Type 0 where
  pub some_address : p ≢ null
  pub action : dword_at mem (p + 4) ≡ c.action
  pub name_bytes : dword_at mem (p + 8) ≡ 2 * length c.name
  pub name_chars : Chars mem (p + 12) c.name
  pub fits : 12 + 2 * length c.name ≤ room

-- At `p` stand the records of the changes `c ∷ cs`, each at the offset that the one before it
-- names, behind its name, and within the buffer; the offset of the last one is 0.
abbrev pub Layout : Memory → Ptr → ℕ → DirectoryChange → List DirectoryChange → Type 0
Layout mem p room c [] = Entry mem p room c × (next_entry_offset mem p ≡ 0)
Layout mem p room c (d ∷ ds) =
    Entry mem p room c
    × (next_entry_offset mem p ≢ 0)
    × (12 + 2 * length c.name ≤ next_entry_offset mem p)
    × (next_entry_offset mem p ≤ room)
    × Layout mem (p + next_entry_offset mem p) (room - next_entry_offset mem p) d ds

pub chars-Chars :
    (mem : Memory) (a : Ptr) (xs : List ℕ) → Chars mem a xs → chars mem a (length xs) ≡ xs
chars-Chars mem a [] h = refl
chars-Chars mem a (x ∷ xs) h = cc (h.0, chars-Chars mem (a + 2) xs h.1)
