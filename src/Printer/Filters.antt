-- ===== src/Printer/Filters.antt =====
-- The filters that a command line can ask for.
use Prim.Native.Nat.{bit_or}
use win_io.Base.{
  ℕ, ◌<◌, ◌≡◌, ◌⊎◌, inl, inr, refl, sym, ap, subst, arith, Bool, true, false, not, ◌&&◌, ◌||◌,
  Option, some, List, [], ◌∷◌, ◌==◌, ltb, if◌then◌else◌, Bool-cases,
}
use win_io.Base.Outcome.{Outcome, done, failed_assert, ◌>>=◌}
use win_io.Printer.{
  Text, text_eq, Options, notify_filters, time_argument, get_filter_from_string, parse_flag,
  parse_flags, parse_argument, parse_arguments, all_of, parse_command_line,
}
use win_io.Printer.Flags.{all_below, all_below-true}

-- The filters that a character can stand for.
abbrev is_low : ℕ → Bool
is_low flag =
    (flag == 1)
    || (flag == 2)
    || (flag == 4)
    || (flag == 8)
    || (flag == 16)
    || (flag == 32)
    || (flag == 64)

get_filter_from_string-is_low :
    (str : Text) (flag : ℕ) → get_filter_from_string str ≡ done flag → is_low flag ≡ true
unfolding get_filter_from_string
get_filter_from_string-is_low str flag finds = ground (arith, finds)

abbrev adds : ℕ → Bool
adds flag = not (is_low flag) || all_below 128 (λ n. ltb (bit_or n flag) 128)

all-adds : all_below 65 adds ≡ true
all-adds = refl

ltb-true : (a : ℕ) → ltb a 128 ≡ true → a < 128
ltb-true a less = ground (arith, less)

implied : (a b : Bool) → (not a || b) ≡ true → a ≡ true → b ≡ true
implied true b table low = table
implied false b table low = absurd (ground (arith, low))

bit_or-is_low : (m flag : ℕ) → m < 128 → is_low flag ≡ true → bit_or m flag < 128
bit_or-is_low m flag less low =
    let small : flag < 65 = ground (arith, low) in
    let table : adds flag ≡ true = all_below-true 65 adds flag all-adds small in
    let each = implied (is_low flag) (all_below 128 (λ n. ltb (bit_or n flag) 128)) table low in
    ltb-true (bit_or m flag) (all_below-true 128 (λ n. ltb (bit_or n flag) 128) m each less)

-- Computations from options without SECURITY stay without.
abbrev KeepsLow : Options → Outcome Options → Type 0
KeepsLow o failed_assert = Unit {0}
KeepsLow o (done o') = o.notify_filter < 128 → o'.notify_filter < 128

>>=-KeepsLow :
    (o : Options) (r : Outcome Options) (f : Options → Outcome Options)
    → KeepsLow o r
    → ((o' : Options) → KeepsLow o' (f o'))
    → KeepsLow o (r >>= f)
>>=-KeepsLow o failed_assert f first next = record {}
>>=-KeepsLow o (done o') f first next = go (f o') (next o')
  where
    go : (r : Outcome Options) → KeepsLow o' r → KeepsLow o r
    go failed_assert keeps = record {}
    go (done o'') keeps = λ less. keeps (first less)

parse_flag-KeepsLow : (c : ℕ) (o : Options) → KeepsLow o (parse_flag c o)
unfolding parse_flag
parse_flag-KeepsLow c o = elim (Bool-cases (c == 46)) [
  | inl dot ↦ rw dot (λ less. less)
  | inr other ↦ elim (Bool-cases (c == 118)) [
    | inl v ↦ rw (other, v) (λ less. less)
    | inr filter ↦ rw (other, filter) (go (get_filter_from_string (c ∷ [])) refl)
  ]
]
  where
    go :
        (r : Outcome ℕ)
        → get_filter_from_string (c ∷ []) ≡ r
        → KeepsLow o (r >>= λ flag. done (record o { notify_filter = bit_or o.notify_filter flag }))
    go failed_assert finds = record {}
    go (done flag) finds = λ less.
        bit_or-is_low o.notify_filter flag less (get_filter_from_string-is_low (c ∷ []) flag finds)

parse_flags-KeepsLow : (cs : Text) (o : Options) → KeepsLow o (parse_flags cs o)
unfolding parse_flags
parse_flags-KeepsLow [] o = λ less. less
parse_flags-KeepsLow (c ∷ cs) o =
    >>=-KeepsLow o (parse_flag c o) (parse_flags cs) (parse_flag-KeepsLow c o)
      (parse_flags-KeepsLow cs)

parse_argument-KeepsLow : (argument : Text) (o : Options) → KeepsLow o (parse_argument argument o)
unfolding parse_argument
parse_argument-KeepsLow argument o =
    elim (Bool-cases (not o.print_time && text_eq argument time_argument)) [
      | inl time ↦ rw time (λ less. less)
      | inr other ↦ elim (Bool-cases (o.notify_filter == 0)) [
        | inl unset ↦ rw (other, unset) (parse_flags-KeepsLow argument o)
        | inr is_set ↦ rw (other, is_set) (λ less. less)
      ]
    ]

parse_arguments-KeepsLow : (as' : List Text) (o : Options) → KeepsLow o (parse_arguments as' o)
unfolding parse_arguments
parse_arguments-KeepsLow [] o = λ less. less
parse_arguments-KeepsLow (argument ∷ others) o =
    >>=-KeepsLow o (parse_argument argument o) (parse_arguments others)
      (parse_argument-KeepsLow argument o) (parse_arguments-KeepsLow others)

abbrev filter_of : Outcome (Option Options) → ℕ
filter_of (done (some o)) = o.notify_filter
filter_of _ = 0

-- A command line of at least two arguments leads to a filter, if the program does not stop at an
-- unknown flag: to some of the filters but SECURITY, or, when it names none, to all of them. There is
-- no command line that asks for SECURITY alone.
pub parse_command_line-filters :
    (argv : List Text) (options o : Options)
    → parse_command_line argv options ≡ done (some o)
    → ((0 < o.notify_filter) × (o.notify_filter < 128)) ⊎ (o.notify_filter ≡ 383)
unfolding parse_command_line
parse_command_line-filters [] options o parses = absurd (ground (arith, parses))
parse_command_line-filters (exe_path ∷ []) options o parses = absurd (ground (arith, parses))
parse_command_line-filters (exe_path ∷ directory ∷ arguments) options o parses =
    let start : Options = record options {
      directory = directory;
      notify_filter = 0;
      watch_sub_tree = true;
    } in
    go (parse_arguments arguments start) (parse_arguments-KeepsLow arguments start) parses
  where
    go :
        (r : Outcome Options)
        → KeepsLow
            (record options { directory = directory; notify_filter = 0; watch_sub_tree = true })
            r
        → (r >>= λ o'.
            if o'.notify_filter == 0
            then done (some (record o' { notify_filter = all_of notify_filters o'.notify_filter }))
            else done (some o'))
          ≡ done (some o)
        → ((0 < o.notify_filter) × (o.notify_filter < 128)) ⊎ (o.notify_filter ≡ 383)
    go failed_assert keeps same = absurd (ground (arith, same))
    go (done o') keeps same = elim (Bool-cases (o'.notify_filter == 0)) [
      | inl unset ↦
          let clear : o'.notify_filter ≡ 0 = ground (arith, unset) in
          inr (sym (ap filter_of (rw (unset, clear) at same)))
      | inr is_set ↦
          let this : o'.notify_filter ≡ o.notify_filter = ap filter_of (rw is_set at same) in
          inl (ground (arith, is_set, this), subst (λ m. m < 128) this (keeps (omega arith)))
    ]
