-- ===== src/Strings/Split.antt =====
-- `StrSplit` of src/utils/string.cc.
use lc.Base.{List, [], ◌∷◌, ◌++◌}
use lc.Base.Text.{Text}

-- The pieces with the delimiter between them.
abbrev pub between : Text → List Text → Text
between delim [] = []
between delim (p ∷ []) = p
between delim (p ∷ q ∷ ps) = p ++ (delim ++ between delim (q ∷ ps))
