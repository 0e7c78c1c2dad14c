-- ===== src/Uci/Loop.antt =====
-- `UciLoop::RunLoop` of src/chess/uciloop.cc.
use lc.Base.{Bool, ◌≡◌, List, ◌++◌, Option}
use lc.Base.Text.{Text}
use lc.Uci.{Command, Error, Result, after_line, End, end_of_input}

module _ {S : Type 0} (handle : S → Command → S × Option Error) where
  -- A line that is followed by the end of the input.
  record Passed (s1 : S) (o : Result Bool) (r : S × List Error × End) (s' : S) (errors : List Error)
      : Type 0 where
    later : List Error
    rest : r ≡ (s', later, end_of_input)
    tail :
        (a : S) (b : List Error) (c : End)
        → after_line handle s1 o (a, later ++ b, c) ≡ (a, errors ++ b, c)
