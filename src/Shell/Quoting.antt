-- ===== src/Shell/Quoting.antt =====
-- What the fallback of internal/shell/executor.go reads: the parts of a line, and quoted words.
use honeypot_go.Base.{
  ℕ, ◌≡◌, refl, sym, ap, ◌∙◌, true, false, ◌&&◌, not, none, some, List, [], ◌∷◌, ◌++◌, Bytes, ◌==◌,
  ==_iff, push_front, append-nil, All, Bool-cases, inl, inr, arith, append_assoc, map,
}
use honeypot_go.Shell.Text.{join}
use honeypot_go.Shell.Fallback.{
  Quote, is_quote, next_quote, is_open, split_top, split_top_level, words_from, tokenize,
}

-- A list with a first element.
abbrev HasHead : List Bytes → Type 0
HasHead [] = ⊥
HasHead (p ∷ ps) = Unit {0}

join-push_front :
    (sep : Bytes) (c : ℕ) (ps : List Bytes)
    → HasHead ps
    → join sep (push_front c ps) ≡ c ∷ join sep ps
unfolding join
join-push_front sep c [] h = absurd h
join-push_front sep c (p ∷ []) h = refl
join-push_front sep c (p ∷ q ∷ ps) h = refl

push_front-HasHead : (c : ℕ) (ps : List Bytes) → HasHead (push_front c ps)
push_front-HasHead c [] = tt
push_front-HasHead c (p ∷ ps) = tt

split_top-HasHead : (sep : ℕ) (q : Quote) (s : Bytes) → HasHead (split_top sep q s)
unfolding split_top
split_top-HasHead sep q [] = tt
split_top-HasHead sep q (c ∷ s) =
    elim (Bool-cases (not (is_open q) && (not (is_quote c) && c == sep))) [
      | inl t ↦ rw t tt
      | inr t ↦ rw t (push_front-HasHead c (split_top sep (next_quote q c) s))
    ]

join-nil_front :
    (sep : Bytes) (ps : List Bytes) → HasHead ps → join sep ([] ∷ ps) ≡ sep ++ join sep ps
unfolding join
join-nil_front sep [] h = absurd h
join-nil_front sep (p ∷ ps) h = refl

join-nil : (sep : ℕ) → join (sep ∷ []) ([] ∷ []) ≡ []
unfolding join
join-nil sep = refl

join-split_top : (sep : ℕ) (q : Quote) (s : Bytes) → join (sep ∷ []) (split_top sep q s) ≡ s
unfolding split_top
join-split_top sep q [] = join-nil sep
join-split_top sep q (c ∷ s) =
    let ih = join-split_top sep (next_quote q c) s in
    let h = split_top-HasHead sep (next_quote q c) s in
    elim (Bool-cases (not (is_open q) && (not (is_quote c) && c == sep))) [
      | inl t ↦
          rw (t, join-nil_front (sep ∷ []) (split_top sep (next_quote q c) s) h, ih) (is_sep t)
      | inr t ↦ rw (t, join-push_front (sep ∷ []) c (split_top sep (next_quote q c) s) h, ih) refl
    ]
  where
    is_sep : (not (is_open q) && (not (is_quote c) && c == sep)) ≡ true → sep ∷ s ≡ c ∷ s
    is_sep t = ap (λ (x : ℕ). x ∷ s) (sym ((==_iff c sep).0 (ground (arith, t))))

-- The parts of a line, put together again with the separator, are the line.
pub join-split_top_level : (s : Bytes) (sep : ℕ) → join (sep ∷ []) (split_top_level s sep) ≡ s
unfolding split_top_level
join-split_top_level s sep = join-split_top sep none s

-- A word without a single quote in it, in single quotes.
abbrev pub single_quoted : Bytes → Bytes
single_quoted w = b'\'' ∷ w ++ b'\'' ∷ []

abbrev pub IsBare : Bytes → Type 0
IsBare w = All (λ c. (c == b'\'') ≡ false) w

words_from-inside :
    (cur w s : Bytes)
    → IsBare w
    → words_from (some b'\'') cur (w ++ b'\'' ∷ s) ≡ words_from none (cur ++ w) s
unfolding words_from
words_from-inside cur [] s h = rw (append-nil cur) refl
words_from-inside cur (c ∷ w) s h =
    rw (h.0, words_from-inside (cur ++ c ∷ []) w s h.1, append_assoc cur (c ∷ []) w) refl

words_from-quoted :
    (c : ℕ) (w s : Bytes)
    → IsBare (c ∷ w)
    → words_from none [] (single_quoted (c ∷ w) ++ s) ≡ words_from none (c ∷ w) s
unfolding words_from
words_from-quoted c w s h =
    ap (words_from (some b'\'') []) (ap (λ (z : Bytes). c ∷ z) (append_assoc w (b'\'' ∷ []) s))
    ∙ words_from-inside [] (c ∷ w) s h

-- Bare words that are not empty.
abbrev pub IsWord : Bytes → Type 0
IsWord [] = ⊥
IsWord (c ∷ w) = IsBare (c ∷ w)

words_from-next :
    (c : ℕ) (w x : Bytes) (xs : List Bytes)
    → words_from none (c ∷ w) (32 ∷ join (32 ∷ []) (map single_quoted (x ∷ xs)))
      ≡ (c ∷ w) ∷ words_from none [] (join (32 ∷ []) (map single_quoted (x ∷ xs)))
unfolding words_from join
words_from-next c w x [] = refl
words_from-next c w x (y ∷ ys) = refl

words_from-nil : words_from none [] [] ≡ []
unfolding words_from
words_from-nil = refl

words_from-close : (c : ℕ) (w : Bytes) → words_from none (c ∷ w) [] ≡ (c ∷ w) ∷ []
unfolding words_from
words_from-close c w = refl

words_from-last :
    (c : ℕ) (w : Bytes) → IsBare (c ∷ w) → words_from none [] (single_quoted (c ∷ w)) ≡ (c ∷ w) ∷ []
words_from-last c w h =
    ap (words_from none []) (sym (append-nil (single_quoted (c ∷ w))))
    ∙ (words_from-quoted c w [] h ∙ words_from-close c w)

words_from-line :
    (ws : List Bytes)
    → All IsWord ws
    → words_from none [] (join (32 ∷ []) (map single_quoted ws)) ≡ ws
unfolding join
words_from-line [] h = words_from-nil
words_from-line ([] ∷ ws) h = absurd h.0
words_from-line ((c ∷ w) ∷ []) h = words_from-last c w h.0
words_from-line ((c ∷ w) ∷ x ∷ xs) h =
    words_from-quoted c w (32 ∷ join (32 ∷ []) (map single_quoted (x ∷ xs))) h.0
    ∙ (words_from-next c w x xs
        ∙ ap (λ (ws : List Bytes). (c ∷ w) ∷ ws) (words_from-line (x ∷ xs) h.1))

-- Words that are not empty and hold no single quote, each in single quotes and with blanks between
-- them, are read back word by word, whatever blanks, backslashes and operators they hold.
pub tokenize-single_quoted :
    (ws : List Bytes) → All IsWord ws → tokenize (join (32 ∷ []) (map single_quoted ws)) ≡ ws
unfolding tokenize
tokenize-single_quoted ws h = words_from-line ws h
