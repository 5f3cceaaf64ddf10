-- ===== src/Word.antt =====
-- Arithmetic on `std::size_t`, modulo 2 ^ 64.
use concurrent_hash_sets.Base.{ℕ, ◌+◌, ◌-◌, ◌%◌, ◌≡◌, arith}
use concurrent_hash_sets.Element.{word}

-- `fetch_add(n)` and `+=`
abbrev pub add_word : ℕ → ℕ → ℕ
add_word a b = (a + b) % word

-- `fetch_sub(n)` and `-=`
abbrev pub sub_word : ℕ → ℕ → ℕ
sub_word a b = (a + word - b % word) % word

-- The counters wrap as the number that they count does.
pub add_word_mod : (a b : ℕ) → add_word (a % word) b ≡ (a + b) % word
add_word_mod a b = omega arith

pub sub_word_mod : (a b c : ℕ) → c + b ≡ a → sub_word (a % word) b ≡ c % word
sub_word_mod a b c h = omega arith
