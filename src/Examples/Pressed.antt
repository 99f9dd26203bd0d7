-- ===== src/Examples/Pressed.antt =====
-- The pressed keys of src/fbserver.c at concrete inputs.
use chroagh.Base.{List, [], ◌∷◌}
use chroagh.FbServer.Keys.{KeyButton, mouse, keyboard, Keys}
use chroagh.FbServer.Keys.History.{press, let_go, Operation, Ends, run-Ends}

abbrev shift : KeyButton
shift = record { type = keyboard; code = 50 }

abbrev letter : KeyButton
letter = record { type = keyboard; code = 38 }

abbrev left : KeyButton
left = record { type = mouse; code = 1 }

-- The newest operation first.
abbrev history : List Operation
history = let_go shift ∷ press left ∷ press letter ∷ press shift ∷ press shift ∷ []

run-Ends_example : Ends history
run-Ends_example = run-Ends history

abbrev two_down : Keys
two_down = record { pressed = left ∷ letter ∷ []; events = [] }
