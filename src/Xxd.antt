-- ===== src/Xxd.antt =====
-- src/string/xxd.c: a buffer as a hexadecimal dump, sixteen bytes to a line.
-- A `char` is a byte. Which bytes `isprint` accepts is an argument, since it depends on the locale.
pub mod Bounds
pub mod Reading
use criterion.Common.{ℕ, zero, suc, ◌+◌, ◌-◌, ◌*◌, ◌/◌, ◌%◌, ◌^◌, Bool, List, [], ◌∷◌, ◌++◌, Bytes}
use criterion.Common.{map, length, replicate, take, drop, ltb, leb, ◌==◌, if◌then◌else◌}
use criterion.Stats.{u64}

abbrev pub group_by : ℕ
group_by = 4

abbrev pub bytes_per_line : ℕ
bytes_per_line = 16

-- S(k), for the number that is left and the logarithm so far.
unfoldable pub log_step : ℕ → ℕ × ℕ → ℕ × ℕ
log_step k (n, i) = if leb (2 ^ k) n then (n / 2 ^ k, i + k) else (n, i)

-- Of a number above zero, for which the result is not negative.
unfoldable pub ulog2 : ℕ → ℕ
ulog2 n = (log_step 1 (log_step 2 (log_step 4 (log_step 8 (log_step 16 (log_step 32 (n, 0))))))).1

-- `align2_up(size, 16)`, of src/common.h: the mask clears the low four bits.
unfoldable pub align2_up : ℕ → ℕ
align2_up size = u64 (u64 (size + (2 ^ 64 - 1)) / 16 * 16 + 16)

-- The argument of malloc; a pointer has eight bytes.
unfoldable pub allocated : ℕ → ℕ
unfolding align2_up
allocated size =
    let maxsz = align2_up size in
    let nb_lines = maxsz / bytes_per_line in
    let nb_spaces = nb_lines * (bytes_per_line / group_by + 2) in
    let len_addr = (8 * 2 + 1) * nb_lines in
    let len_hex = maxsz * 2 in u64 (maxsz + len_hex + nb_spaces + len_addr + nb_lines + 1)

unfoldable pub offwidth : ℕ → ℕ
unfolding ulog2 log_step
offwidth size =
    let w = if ltb 1 size then ulog2 (size - 1) / ulog2 16 else 1 in
    let w' = if ltb 0 w then w else 1 in w' + w' % 2

unfoldable pub hex_digit : ℕ → ℕ
hex_digit d = if ltb d 10 then b'0' + d else b'a' + (d - 10)

-- `%x` of a number with at most `digits` digits, and `%0*x` of 64 bits.
unfoldable pub hex_of : ℕ → ℕ → Bytes
unfolding hex_digit
hex_of zero n = []
hex_of (suc digits) n =
    let high = hex_of digits (n / 16) in
    if n / 16 == 0 then hex_digit (n % 16) ∷ [] else high ++ hex_digit (n % 16) ∷ []

unfoldable pub padded_hex : ℕ → ℕ → Bytes
unfolding hex_of
padded_hex width n = let digits = hex_of 16 n in replicate (width - length digits) b'0' ++ digits

-- The bytes of a line in hexadecimal, the first one at position `j`.
unfoldable pub hex_bytes : ℕ → Bytes → Bytes
unfolding hex_digit
hex_bytes j [] = []
hex_bytes j (c ∷ cs) =
    let pair = hex_digit (c / 16 % 16) ∷ hex_digit (c % 16) ∷ hex_bytes (j + 1) cs in
    if j % group_by == 0 then b' ' ∷ pair else pair

module _ (is_print : ℕ → Bool) where
  abbrev shown : ℕ → ℕ
  shown c = if is_print c then c else b'.'

  -- The columns of one line, behind the address.
  unfoldable pub columns : Bytes → Bytes
  unfolding hex_bytes
  columns chunk =
      let left = bytes_per_line - length chunk in
      hex_bytes 0 chunk
      ++ (replicate ((left + 1) * 2 + left / group_by) b' '
          ++ (map shown chunk ++ (replicate left b' ' ++ 10 ∷ [])))

  -- The outer loop, from the byte with index `i`. A number of rounds is given, and as many as there
  -- are bytes are enough.
  unfoldable pub xxd_lines : ℕ → ℕ → ℕ → ℕ → Bytes → Bytes
  xxd_lines rounds width start i [] = []
  xxd_lines zero width start i (c ∷ data_) = []
  xxd_lines (suc rounds) width start i (c ∷ data_) =
      let chunk = take bytes_per_line (c ∷ data_) in
      padded_hex width (u64 (i + start))
      ++ b':'
        ∷ (columns chunk
            ++ xxd_lines rounds width start (i + length chunk) (drop bytes_per_line (c ∷ data_)))

  -- The text, without its terminating NUL.
  unfoldable pub cri_string_xxd : Bytes → ℕ → Bytes
  unfolding xxd_lines offwidth padded_hex columns
  cri_string_xxd bytes start = xxd_lines (length bytes) (offwidth (length bytes)) start 0 bytes
