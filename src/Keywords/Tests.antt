-- ===== src/Keywords/Tests.antt =====
-- Tests of the keyword and id lists of dashboard/src/folio/context.tsx and of the pieces' editors.
use ok_folio.Prelude.{List, [], ◌∷◌, map, ◌≡◌, refl}
use ok_folio.Prelude.Text.{Text, codes, text_eq, trim}
use ok_folio.Format.Samples.{ascii_lower}
use ok_folio.Keywords.{normalize_keywords, normalize_from, has_text, split_keywords, split_comma}
use ok_folio.Keywords.Normal.{IsNormal, lower_keys, normalize_keywords_lem}

abbrev words : List Text
words = codes " Oil" ∷ codes "" ∷ codes "oil" ∷ codes "Print " ∷ []

normalize_keywords_lem_example :
    IsNormal ascii_lower [] (normalize_keywords ascii_lower words)
    × (normalize_keywords ascii_lower (normalize_keywords ascii_lower words)
        ≡ normalize_keywords ascii_lower words)
    × ((key : Text)
        → has_text key (map ascii_lower (normalize_keywords ascii_lower words))
          ≡ has_text key (lower_keys ascii_lower words))
normalize_keywords_lem_example = normalize_keywords_lem ascii_lower words

normalized : normalize_keywords ascii_lower words ≡ codes "Oil" ∷ codes "Print" ∷ []
unfolding normalize_keywords normalize_from trim text_eq
normalized = refl

split : split_keywords (codes "oil, ,print ") ≡ codes "oil" ∷ codes "print" ∷ []
unfolding split_keywords split_comma trim
split = refl
