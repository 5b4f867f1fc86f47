-- ===== src/Models/Keys.antt =====
-- models.py: `APIKey.generate_api_key` and `APIKey.save`. `secrets.choice` is a parameter: `choice n` is
-- the index into the alphabet that is drawn for the letter before the last n, not beyond its end.
use packamal.Models.{ApiKey}
use packamal.Prelude.{
  ℕ, zero, suc, ◌<◌, Text, codes, [], ◌∷◌, ◌≡◌, refl, length, is_nonempty, if◌then◌else◌, All,
  any_of, ◌==◌, true, arith, ==-self, ap,
}

-- `string.ascii_letters + string.digits`
abbrev pub alphabet : Text
alphabet = codes "abcdefghijklmnopqrstuvwxyzABCDEFGHIJKLMNOPQRSTUVWXYZ0123456789"

-- `alphabet[i]`; an index beyond the end is not met.
abbrev pub letter : Text → ℕ → ℕ
letter [] i = 0
letter (c ∷ cs) zero = c
letter (c ∷ cs) (suc i) = letter cs i

unfoldable pub letters : (choice : ℕ → ℕ) → ℕ → Text
letters choice zero = []
letters choice (suc n) = letter alphabet (choice n) ∷ letters choice n

unfoldable pub generate_api_key : (choice : ℕ → ℕ) → Text
unfolding letters
generate_api_key choice = letters choice 64

-- `if not self.key`
unfoldable pub save_api_key : (choice : ℕ → ℕ) → ApiKey → ApiKey
unfolding generate_api_key
save_api_key choice k = if is_nonempty k.key then k else record k { key = generate_api_key choice }

letter-IsLetter : (cs : Text) (i : ℕ) → i < length cs → any_of (λ c. c == letter cs i) cs ≡ true
letter-IsLetter [] i h = absurd (omega arith)
letter-IsLetter (c ∷ cs) zero h = ground (arith, ==-self c)
letter-IsLetter (c ∷ cs) (suc i) h = ground (arith, letter-IsLetter cs i)

letters_lem :
    (choice : ℕ → ℕ)
    → ((n : ℕ) → choice n < 62)
    → (n : ℕ)
    → (length (letters choice n) ≡ n)
      × All (λ c. any_of (λ d. d == c) alphabet ≡ true) (letters choice n)
unfolding letters
letters_lem choice in_range zero = (refl, tt)
letters_lem choice in_range (suc n) =
    let (same, known) = letters_lem choice in_range n in
    (ap suc same, (letter-IsLetter alphabet (choice n) (in_range n), known))

-- A key that save generates has 64 characters, each of which is a letter or a digit, if the choice
-- does not go beyond the end of the alphabet.
pub generate_api_key_lem :
    (choice : ℕ → ℕ)
    → ((n : ℕ) → choice n < 62)
    → (length (generate_api_key choice) ≡ 64)
      × All (λ c. any_of (λ d. d == c) alphabet ≡ true) (generate_api_key choice)
unfolding generate_api_key
generate_api_key_lem choice in_range = letters_lem choice in_range 64
