-- ===== src/Util/Logger.antt =====
-- src/util/TLogger.hpp: what `tklb_print_path` makes of the path of a file. A C string is the list of the
-- characters behind the pointer; a read behind them is a fault.
pub mod FileName
mod Tests
use tklb.Base.{
  ℕ, zero, suc, ◌+◌, Bool, List, drop, get_elem?, ◌==◌, ◌||◌, if◌then◌else◌, Run, ok, ◌>>=◌, read,
}

-- `bufferSize`.
abbrev pub buffer_size : ℕ
buffer_size = 1024

-- A backslash or a slash.
abbrev pub is_delimiter : ℕ → Bool
is_delimiter c = c == 92 || c == 47

-- The loop from the index `i` on, with the rounds left.
pub delimiter_from : ℕ → List ℕ → ℕ → ℕ → Run ℕ
delimiter_from zero path i last_delimiter = ok last_delimiter
delimiter_from (suc k) path i last_delimiter = read (get_elem? path i) >>= λ c.
    if c == 0
    then ok last_delimiter
    else delimiter_from k path (i + 1) (if is_delimiter c then i else last_delimiter)

-- The name that is printed.
pub file_name : List ℕ → Run (List ℕ)
unfolding delimiter_from
file_name path =
    delimiter_from buffer_size path 0 0 >>= λ last_delimiter. ok (drop (last_delimiter + 1) path)
