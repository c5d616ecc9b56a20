-- ===== src/KnownHosts/Lines.antt =====
-- The lines of a text and the words of a line, where they were put together.
use bevy_quinnet.Base.{
  ℕ, ◌<◌, ◌≡◌, refl, sym, ap, ◌∙◌, List, [], ◌∷◌, ◌++◌, false, ◌==◌, length, All, arith,
}
use mathlib.Core.List.{append_assoc, append-nil}
use bevy_quinnet.KnownHosts.{Text, is_whitespace, strip_return, split_lines, split_words, push_word}

abbrev pub IsWord : Text → Type 0
IsWord t = (0 < length t) × All (λ c. is_whitespace c ≡ false) t

-- No line feed and no carriage return.
abbrev pub IsLine : Text → Type 0
IsLine t = All (λ c. ((c == 10) ≡ false) × ((c == 13) ≡ false)) t

not_line_end : (c : ℕ) → is_whitespace c ≡ false → ((c == 10) ≡ false) × ((c == 13) ≡ false)
unfolding is_whitespace
not_line_end c h = (ground arith, ground arith)

word-IsLine : (t : Text) → All (λ c. is_whitespace c ≡ false) t → IsLine t
word-IsLine [] h = tt
word-IsLine (c ∷ cs) h = (not_line_end c h.0, word-IsLine cs h.1)

IsLine-append : (s t : Text) → IsLine s → IsLine t → IsLine (s ++ t)
IsLine-append [] t hs ht = ht
IsLine-append (c ∷ cs) t hs ht = (hs.0, IsLine-append cs t hs.1 ht)

pub words-IsLine : (s t : Text) → IsWord s → IsWord t → IsLine (s ++ 32 ∷ t)
words-IsLine s t hs ht =
    IsLine-append s (32 ∷ t) (word-IsLine s hs.1) ((refl, refl), word-IsLine t ht.1)

strip_return_line : (t : Text) → IsLine t → strip_return t ≡ t
unfolding strip_return
strip_return_line [] h = refl
strip_return_line (c ∷ []) h = rw h.0.1
strip_return_line (c ∷ d ∷ cs) h = ap (◌∷◌ c) (strip_return_line (d ∷ cs) h.1)

split_onto :
    (line t rest : Text)
    → IsLine t
    → split_lines line (t ++ 10 ∷ rest) ≡ strip_return (line ++ t) ∷ split_lines [] rest
unfolding split_lines
split_onto line [] rest h = rw append-nil
split_onto line (c ∷ cs) rest h =
    rw (h.0.0, split_lines)
      (split_onto (line ++ c ∷ []) cs rest h.1
        ∙ ap (λ (l : Text). strip_return l ∷ split_lines [] rest) (append_assoc line (c ∷ []) cs))

pub split_lines_first :
    (t rest : Text) → IsLine t → split_lines [] (t ++ 10 ∷ rest) ≡ t ∷ split_lines [] rest
split_lines_first t rest h =
    split_onto [] t rest h ∙ ap (λ (l : Text). l ∷ split_lines [] rest) (strip_return_line t h)

words_onto :
    (word t rest : Text)
    → All (λ c. is_whitespace c ≡ false) t
    → split_words word (t ++ rest) ≡ split_words (word ++ t) rest
unfolding split_words
words_onto word [] rest h = rw append-nil
words_onto word (c ∷ cs) rest h =
    rw (h.0, split_words)
      (words_onto (word ++ c ∷ []) cs rest h.1
        ∙ ap (λ (x : Text). split_words x rest) (append_assoc word (c ∷ []) cs))

push_word-IsWord : (t : Text) (ws : List Text) → 0 < length t → push_word t ws ≡ t ∷ ws
push_word-IsWord [] ws h = absurd (omega arith)
push_word-IsWord (c ∷ cs) ws h = refl

last_word : (t : Text) → IsWord t → split_words [] t ≡ t ∷ []
unfolding split_words
last_word t h =
    ap (split_words []) (sym (append-nil t)) ∙ words_onto [] t [] h.1 ∙ push_word-IsWord t [] h.0

pub split_words_two : (s t : Text) → IsWord s → IsWord t → split_words [] (s ++ 32 ∷ t) ≡ s ∷ t ∷ []
unfolding split_words is_whitespace
split_words_two s t hs ht =
    words_onto [] s (32 ∷ t) hs.1
    ∙ push_word-IsWord s (split_words [] t) hs.0
    ∙ ap (◌∷◌ s) (last_word t ht)
