-- ===== src/Vec.antt =====
-- vec/word.go and vec/conv.go: the words of a corpus with their numbers, and the vector of a sentence. The
-- words of a text are those of `strings.Fields`; numbers in floating point are a parameter.
use own_x_go.Base.{
  ℕ, zero, suc, ◌+◌, ◌≡◌, refl, ap, String, String_discrete, List, [], ◌∷◌, map, Option, none, some,
  true, ite, if◌then◌else◌, length, replicate, lookup, insert, lookup-insert, arith, ◌==◌,
}

abbrev pub or_zero : Option ℕ → ℕ
or_zero none = 0
or_zero (some n) = n

unfoldable pub count_words : List String → List (String × ℕ) → List (String × ℕ)
unfolding lookup insert
count_words [] vocab = vocab
count_words (word ∷ words) vocab =
    count_words words
      (insert String_discrete word (or_zero (lookup String_discrete word vocab) + 1) vocab)

unfoldable pub count_docs : List (List String) → List (String × ℕ) → List (String × ℕ)
unfolding count_words
count_docs [] vocab = vocab
count_docs (words ∷ corpus) vocab = count_docs corpus (count_words words vocab)

unfoldable pub bag_of_words : List (List String) → List (String × ℕ)
unfolding count_docs
bag_of_words corpus = count_docs corpus []

-- How often a word stands in the words, and in the corpus.
unfoldable pub occurrences : String → List String → ℕ
occurrences w [] = 0
occurrences w (word ∷ words) =
    let rest = occurrences w words in ite (String_discrete w word) (suc rest) rest

unfoldable pub occurrences_in : String → List (List String) → ℕ
occurrences_in w [] = 0
occurrences_in w (words ∷ corpus) = occurrences w words + occurrences_in w corpus

count_words-occurrences :
    (w : String) (words : List String) (vocab : List (String × ℕ))
    → or_zero (lookup String_discrete w (count_words words vocab))
      ≡ occurrences w words + or_zero (lookup String_discrete w vocab)
unfolding count_words occurrences
count_words-occurrences w [] vocab = ground arith
count_words-occurrences w (word ∷ words) vocab =
    let n = or_zero (lookup String_discrete word vocab) + 1 in
    let later = count_words-occurrences w words (insert String_discrete word n vocab) in
    let stored = ap or_zero (lookup-insert String_discrete word w n vocab) in
    elim (String_discrete w word) [
      | yes e ↦ ground (arith, later, stored, ap (λ v. or_zero (lookup String_discrete v vocab)) e)
      | no other ↦ ground (arith, later, stored)
    ]

count_docs-occurrences :
    (w : String) (corpus : List (List String)) (vocab : List (String × ℕ))
    → or_zero (lookup String_discrete w (count_docs corpus vocab))
      ≡ occurrences_in w corpus + or_zero (lookup String_discrete w vocab)
unfolding count_docs occurrences_in
count_docs-occurrences w [] vocab = ground arith
count_docs-occurrences w (words ∷ corpus) vocab = omega (
  arith,
  count_docs-occurrences w corpus (count_words words vocab),
  count_words-occurrences w words vocab,
)

-- `BagOfWords` has every word under the number of its occurrences in the texts, and a read of a word that
-- does not occur gives 0.
pub bag_of_words-occurrences :
    (w : String) (corpus : List (List String))
    → or_zero (lookup String_discrete w (bag_of_words corpus)) ≡ occurrences_in w corpus
unfolding bag_of_words lookup
bag_of_words-occurrences w corpus = omega (arith, count_docs-occurrences w corpus [])

module _ {F : Type 0} (zero_f : F) (add : F → F → F) (over : F → ℕ → F) where
  -- The loop over the components; none is the fault of an index past the average.
  unfoldable pub add_vector : List F → List F → Option (List F)
  add_vector avg [] = some avg
  add_vector [] (x ∷ xs) = none
  add_vector (a ∷ avg) (x ∷ xs) = elim (add_vector avg xs) [
    | none ↦ none
    | some rest ↦ some (add a x ∷ rest)
  ]

  unfoldable pub add_words : List (String × List F) → List String → List F → ℕ → Option (List F × ℕ)
  unfolding add_vector lookup
  add_words vectors [] avg n = some (avg, n)
  add_words vectors (word ∷ words) avg n = elim (lookup String_discrete word vectors) [
    | none ↦ add_words vectors words avg n
    | some v ↦ elim (add_vector avg v) [
      | none ↦ none
      | some sum ↦ add_words vectors words sum (n + 1)
    ]
  ]

  abbrev pub average : List F × ℕ → List F
  average (sum, zero) = sum
  average (sum, suc n) = map (λ x. over x (suc n)) sum

  -- The dimension is that of the first word.
  abbrev pub dimension : Option (List F) → ℕ
  dimension none = 50
  dimension (some v) = if length v == 0 then 50 else length v

  -- `SentenceToVector`: none is a fault, also that of a sentence without a word.
  unfoldable pub sentence_to_vector : List (String × List F) → List String → Option (List F)
  unfolding add_words
  sentence_to_vector vectors [] = none
  sentence_to_vector vectors (word ∷ words) =
      elim (add_words vectors (word ∷ words)
        (replicate (dimension (lookup String_discrete word vectors)) zero_f) 0) [
          | none ↦ none
          | some s ↦ some (average s)
        ]

  -- The loop of `LoadWordVectors` over the fields of its lines, with the number of a field.
  unfoldable pub load_word_vectors :
      (String → F) → List (List String) → List (String × List F) → List (String × List F)
  unfolding insert
  load_word_vectors parse [] vectors = vectors
  load_word_vectors parse ([] ∷ lines) vectors = load_word_vectors parse lines vectors
  load_word_vectors parse ((word ∷ []) ∷ lines) vectors = load_word_vectors parse lines vectors
  load_word_vectors parse ((word ∷ v ∷ vs) ∷ lines) vectors =
      load_word_vectors parse lines (insert String_discrete word (map parse (v ∷ vs)) vectors)

module _ {F : Type 0} (add mul div : F → F → F) (sqrt : F → F) where
  -- The loop of `CosineSimilarly`, with its three sums.
  unfoldable pub sums : List F → List F → F × F × F → F × F × F
  sums (a ∷ xs) (b ∷ ys) (dot, norm_a, norm_b) =
      sums xs ys (add dot (mul a b), add norm_a (mul a b), add norm_b (mul a b))
  sums [] ys s = s
  sums (a ∷ xs) [] s = s

  -- `CosineSimilarly`: none is its panic.
  unfoldable pub cosine_similarly : F → List F → List F → Option F
  unfolding sums
  cosine_similarly zero_f vec1 vec2 =
      if length vec1 == length vec2
      then (let (dot, norm_a, norm_b) = sums vec1 vec2 (zero_f, zero_f, zero_f) in
          some (div dot (mul (sqrt norm_a) (sqrt norm_b))))
      else none

  same_sums : (xs ys : List F) (x : F) → let s = sums xs ys (x, x, x) in (s.1 ≡ s.0) × (s.2 ≡ s.0)
  unfolding sums
  same_sums [] ys x = (refl, refl)
  same_sums (a ∷ xs) [] x = (refl, refl)
  same_sums (a ∷ xs) (b ∷ ys) x = same_sums xs ys (add x (mul a b))

  -- The norms are the product of the vectors too: the result depends on that product alone.
  pub cosine_similarly-dot :
      (zero_f : F) (vec1 vec2 : List F)
      → length vec1 ≡ length vec2
      → let dot = (sums vec1 vec2 (zero_f, zero_f, zero_f)).0 in
        cosine_similarly zero_f vec1 vec2 ≡ some (div dot (mul (sqrt dot) (sqrt dot)))
  unfolding cosine_similarly
  cosine_similarly-dot zero_f vec1 vec2 same =
      let (a, b) = same_sums vec1 vec2 zero_f in
      let equal : (length vec1 == length vec2) ≡ true = ground arith in rw (equal, a, b) refl
