-- ===== src/CString.antt =====
-- lib/string.c and include/thuban/string.h, over a memory that gives each address its byte.
-- A pointer is an address; NULL is 0. Pointer arithmetic does not wrap. A loop that runs to the
-- terminator takes fuel, and `none` means that the fuel ran out; with more fuel than the string has
-- bytes it never does. A loop that counts `n` down recurs on `n`.
pub mod Text
pub mod Compare
pub mod Search
pub mod Copy
pub mod Memory
mod Tests
use thuban.Base.{
  ℕ, zero, suc, ◌+◌, ◌%◌, Bool, true, false, not, ◌&&◌, Option, none, some, ltb, ◌==◌,
  if◌then◌else◌,
}
use mathlib.Core.Option
use thuban.Base.Store.{update}
use thuban.Base.Int.{ℤ, pos, negsuc, sub_ℕ}

abbrev pub Mem : Type 0
Mem = ℕ → ℕ

abbrev pub null : ℕ
null = 0

-- `(char)c`, and `(unsigned char)c`: the bytes are compared only with one another.
abbrev pub char : ℕ → ℕ
char c = c % 256

pub strlen_from : ℕ → Mem → ℕ → ℕ → Option ℕ
strlen_from zero m s len = none
strlen_from (suc f) m s len =
    let more = strlen_from f m s (len + 1) in if m (s + len) == 0 then some len else more

pub strlen : ℕ → Mem → ℕ → Option ℕ
strlen f m s = strlen_from f m s 0

-- The rounds left are `maxlen - len`.
pub strnlen_from : ℕ → Mem → ℕ → ℕ → ℕ
strnlen_from zero m s len = len
strnlen_from (suc n) m s len =
    let more = strnlen_from n m s (len + 1) in if m (s + len) == 0 then len else more

pub strnlen : Mem → ℕ → ℕ → ℕ
strnlen m s maxlen = strnlen_from maxlen m s 0

-- `while (*src) *d++ = *src++; *d = '\0';`
pub copy_text : ℕ → Mem → ℕ → ℕ → Option Mem
copy_text zero m d s = none
copy_text (suc f) m d s =
    let more = copy_text f (update m d (m s)) (d + 1) (s + 1) in
    if m s == 0 then some (update m d 0) else more

pub strcpy : ℕ → Mem → ℕ → ℕ → Option Mem
strcpy f m dest src = copy_text f m dest src

-- The second loop of `strncpy`: zeros to the end.
pub fill_zeros : ℕ → Mem → ℕ → Mem
fill_zeros zero m d = m
fill_zeros (suc n) m d = fill_zeros n (update m d 0) (d + 1)

-- The first loop, with the rounds left; `d` and `s` are `dest + i` and `src + i`.
pub strncpy : Mem → ℕ → ℕ → ℕ → Mem
strncpy m d s zero = m
strncpy m d s (suc n) =
    let more = strncpy (update m d (m s)) (d + 1) (s + 1) n in
    if m s == 0 then fill_zeros (suc n) m d else more

-- `while (*d) d++;`
pub to_end : ℕ → Mem → ℕ → Option ℕ
to_end zero m d = none
to_end (suc f) m d = let more = to_end f m (d + 1) in if m d == 0 then some d else more

pub strcat : ℕ → Mem → ℕ → ℕ → Option Mem
strcat f m dest src = Option.bind (to_end f m dest) (λ d. copy_text f m d src)

-- `for (i = 0; i < n && src[i]; i++) d[i] = src[i]; d[i] = '\0';`
pub copy_at_most : ℕ → Mem → ℕ → ℕ → Mem
copy_at_most zero m d s = update m d 0
copy_at_most (suc n) m d s =
    let more = copy_at_most n (update m d (m s)) (d + 1) (s + 1) in
    if m s == 0 then update m d 0 else more

pub strncat : ℕ → Mem → ℕ → ℕ → ℕ → Option Mem
strncat f m dest src n = Option.map (λ d. copy_at_most n m d src) (to_end f m dest)

pub strcmp : ℕ → Mem → ℕ → ℕ → Option ℤ
strcmp zero m s₁ s₂ = none
strcmp (suc f) m s₁ s₂ =
    let more = strcmp f m (s₁ + 1) (s₂ + 1) in
    if not (m s₁ == 0) && m s₁ == m s₂ then more else some (sub_ℕ (m s₁) (m s₂))

-- `n--` in the loop's test makes `n` equal to -1 exactly when the loop ends by it, and then, as for
-- `n == 0` at the start, the result is 0.
pub strncmp : Mem → ℕ → ℕ → ℕ → ℤ
strncmp m s₁ s₂ zero = pos 0
strncmp m s₁ s₂ (suc n) =
    let more = strncmp m (s₁ + 1) (s₂ + 1) n in
    if not (m s₁ == 0) && m s₁ == m s₂ then more else sub_ℕ (m s₁) (m s₂)

pub strchr : ℕ → Mem → ℕ → ℕ → Option ℕ
strchr zero m s c = none
strchr (suc f) m s c =
    let more = strchr f m (s + 1) c in
    if m s == char c then some s else if m s == 0 then some null else more

pub strrchr_from : ℕ → Mem → ℕ → ℕ → ℕ → Option ℕ
strrchr_from zero m s c last = none
strrchr_from (suc f) m s c last =
    let more = strrchr_from f m (s + 1) c (if m s == char c then s else last) in
    if m s == 0 then some (if char c == 0 then s else last) else more

pub strrchr : ℕ → Mem → ℕ → ℕ → Option ℕ
strrchr f m s c = strrchr_from f m s c null

-- The inner loop of `strstr`: does it end at the terminator of `n`?
pub match_at : ℕ → Mem → ℕ → ℕ → Option Bool
match_at zero m h n = none
match_at (suc f) m h n =
    let more = match_at f m (h + 1) (n + 1) in
    if not (m h == 0) && not (m n == 0) && m h == m n then more else some (m n == 0)

pub strstr_from : ℕ → ℕ → Mem → ℕ → ℕ → Option ℕ
strstr_from f zero m haystack needle = none
strstr_from f (suc g) m haystack needle =
    let more = strstr_from f g m (haystack + 1) needle in
    if m haystack == 0
    then some null
    else Option.bind (match_at f m haystack needle) (λ found. if found then some haystack else more)

pub strstr : ℕ → Mem → ℕ → ℕ → Option ℕ
strstr f m haystack needle =
    if m needle == 0 then some haystack else strstr_from f f m haystack needle

pub memset : Mem → ℕ → ℕ → ℕ → Mem
memset m p c zero = m
memset m p c (suc n) = memset (update m p (c % 256)) (p + 1) c n

pub memcpy : Mem → ℕ → ℕ → ℕ → Mem
memcpy m d s zero = m
memcpy m d s (suc n) = memcpy (update m d (m s)) (d + 1) (s + 1) n

-- `while (n--) *--d = *--s;` with both pointers one past the end.
pub copy_back : Mem → ℕ → ℕ → ℕ → Mem
copy_back m d s zero = m
copy_back m d s (suc n) = copy_back (update m (d + n) (m (s + n))) d s n

pub memmove : Mem → ℕ → ℕ → ℕ → Mem
memmove m dest src n = if ltb dest src then memcpy m dest src n else copy_back m dest src n

pub memcmp : Mem → ℕ → ℕ → ℕ → ℤ
memcmp m p₁ p₂ zero = pos 0
memcmp m p₁ p₂ (suc n) =
    let more = memcmp m (p₁ + 1) (p₂ + 1) n in
    if not (m p₁ == m p₂) then sub_ℕ (m p₁) (m p₂) else more
