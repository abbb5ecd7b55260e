-- ===== src/CString.antt =====
-- UEFIpp/Source/CRT/String.cpp: the C string functions. Memory is a function from addresses to
-- characters, of one byte or wide, since the functions come in both kinds with the same text; the
-- null pointer is 0, and addresses of a string do not wrap. A loop that looks for the terminator runs
-- on fuel, and `none` means that it ran out. A character to look for is given as its cast makes it.
pub mod Texts
pub mod Writing
pub mod Comparing
mod Tests
use uefipp.Base.{
  ℕ, zero, suc, ◌+◌, ◌-◌, Bool, true, false, not, ◌&&◌, ◌||◌, Option, none, some, ltb, ◌==◌,
  if◌then◌else◌,
}

abbrev pub Memory : Type 0
Memory = ℕ → ℕ

abbrev pub store : Memory → ℕ → ℕ → Memory
store m at c a = if a == at then c else m a

-- An `int`, and the difference of two characters.
pub data ℤ : Type 0 where
  pos : ℕ → ℤ
  negsuc : ℕ → ℤ

abbrev pub difference : ℕ → ℕ → ℤ
difference l r = if ltb l r then ℤ.negsuc (r - l - 1) else ℤ.pos (l - r)

-- strlen and wcslen.
pub length_from : Memory → ℕ → ℕ → ℕ → Option ℕ
length_from m zero p n = none
length_from m (suc fuel) p n = elim (m (p + n) == 0) [
  | true ↦ some n
  | false ↦ length_from m fuel p (n + 1)
]

pub strlen : Memory → ℕ → ℕ → Option ℕ
strlen m fuel p = if p == 0 then some 0 else length_from m fuel p 0

-- strcpy and wcscpy: the memory afterwards.
pub copy_from : Memory → ℕ → ℕ → ℕ → Option Memory
copy_from m zero d s = none
copy_from m (suc fuel) d s = elim (m s == 0) [
  | true ↦ some (store m d (m s))
  | false ↦ copy_from (store m d (m s)) fuel (d + 1) (s + 1)
]

pub strcpy : Memory → ℕ → ℕ → ℕ → Option Memory
strcpy m fuel d s = if d == 0 || s == 0 then some m else copy_from m fuel d s

-- The two loops of strncpy and wcsncpy: characters, then zeros.
pub fill_zeros : Memory → ℕ → ℕ → Memory
fill_zeros m d zero = m
fill_zeros m d (suc count) = fill_zeros (store m d 0) (d + 1) count

pub copy_some : Memory → ℕ → ℕ → ℕ → Memory
copy_some m d s zero = m
copy_some m d s (suc count) = elim (m s == 0) [
  | true ↦ fill_zeros m d (suc count)
  | false ↦ copy_some (store m d (m s)) (d + 1) (s + 1) count
]

pub strncpy : Memory → ℕ → ℕ → ℕ → Memory
strncpy m d s count = if d == 0 || s == 0 then m else copy_some m d s count

-- strcmp and wcscmp.
pub compare_from : Memory → ℕ → ℕ → ℕ → Option ℤ
compare_from m zero l r = none
compare_from m (suc fuel) l r = elim (not (m l == 0) && m l == m r) [
  | true ↦ compare_from m fuel (l + 1) (r + 1)
  | false ↦ some (difference (m l) (m r))
]

pub strcmp : Memory → ℕ → ℕ → ℕ → Option ℤ
strcmp m fuel l r =
    if l == r
    then some (ℤ.pos 0)
    else if l == 0
    then some (ℤ.negsuc 0)
    else if r == 0
    then some (ℤ.pos 1)
    else compare_from m fuel l r

-- strncmp and wcsncmp.
pub compare_some : Memory → ℕ → ℕ → ℕ → ℤ
compare_some m l r zero = ℤ.pos 0
compare_some m l r (suc count) =
    let rest = compare_some m (l + 1) (r + 1) count in
    if not (m l == m r) then difference (m l) (m r) else if m l == 0 then ℤ.pos 0 else rest

pub strncmp : Memory → ℕ → ℕ → ℕ → ℤ
strncmp m l r count =
    if count == 0
    then ℤ.pos 0
    else if l == r
    then ℤ.pos 0
    else if l == 0
    then ℤ.negsuc 0
    else if r == 0
    then ℤ.pos 1
    else compare_some m l r count

-- memchr: the address of the first such character, or 0.
pub memchr : Memory → ℕ → ℕ → ℕ → ℕ
memchr m b c zero = 0
memchr m b c (suc count) =
    let rest = memchr m (b + 1) c count in if b == 0 then 0 else if m b == c then b else rest

-- strcat.
pub strcat : Memory → ℕ → ℕ → ℕ → Option Memory
strcat m fuel d s =
    if d == 0 || s == 0
    then some m
    else elim (strlen m fuel d) [ none ↦ none | some n ↦ strcpy m fuel (d + n) s ]

-- strncat.
pub append_some : Memory → ℕ → ℕ → ℕ → Memory
append_some m d s zero = store m d 0
append_some m d s (suc count) = elim (m s == 0) [
  | true ↦ store m d 0
  | false ↦ append_some (store m d (m s)) (d + 1) (s + 1) count
]

pub strncat : Memory → ℕ → ℕ → ℕ → ℕ → Option Memory
strncat m fuel d s count =
    if d == 0 || s == 0
    then some m
    else elim (strlen m fuel d) [ none ↦ none | some n ↦ some (append_some m (d + n) s count) ]

-- strchr and wcschr.
pub find_from : Memory → ℕ → ℕ → ℕ → Option ℕ
find_from m zero p c = none
find_from m (suc fuel) p c =
    let rest = find_from m fuel (p + 1) c in
    if m p == c then some p else if m p == 0 then some 0 else rest

pub strchr : Memory → ℕ → ℕ → ℕ → Option ℕ
strchr m fuel p c = if p == 0 then some 0 else find_from m fuel p c

-- strrchr; `result` is the last place so far.
pub find_last_from : Memory → ℕ → ℕ → ℕ → ℕ → Option ℕ
find_last_from m zero p c result = none
find_last_from m (suc fuel) p c result =
    let found = if m p == c then p else result in
    let rest = find_last_from m fuel (p + 1) c found in if m p == 0 then some found else rest

pub strrchr : Memory → ℕ → ℕ → ℕ → Option ℕ
strrchr m fuel p c = if p == 0 then some 0 else find_last_from m fuel p c 0

-- strstr.
pub search_from : Memory → ℕ → ℕ → ℕ → ℕ → Option ℕ
search_from m zero p q n = none
search_from m (suc fuel) p q n =
    let rest = search_from m fuel (p + 1) q n in
    if m p == 0
    then some 0
    else elim (strncmp m p q n) [ ℤ.pos zero ↦ some p | ℤ.pos (suc k) ↦ rest | ℤ.negsuc k ↦ rest ]

pub strstr : Memory → ℕ → ℕ → ℕ → Option ℕ
strstr m fuel p q =
    if p == 0 || q == 0
    then some 0
    else if m q == 0
    then some p
    else elim (strlen m fuel q) [ none ↦ none | some n ↦ search_from m fuel p q n ]
