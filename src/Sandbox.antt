-- ===== src/Sandbox.antt =====
-- run_sandbox.py: the demonstration. A section returns what it prints and, if the script goes on, a
-- value for the sections behind it.
pub mod Envelope
pub mod Scenarios
pub mod Demo
use mx2_sandbox.Base.{Str, str, Option, none, some, List, [], ◌∷◌, ◌++◌, map}
use mx2_sandbox.Base.Text.{upper}
use mx2_sandbox.Json.{Json, text, arr, items}
use mx2_sandbox.Ctl.Terminal.{times, center}

-- `print_banner`
unfoldable pub print_banner : Str → List Str
unfolding times center upper
print_banner title =
    (10 ∷ times (str "=") 60)
    ∷ center 60 (str "=") (str " " ++ (upper title ++ str " "))
    ∷ times (str "=") 60
    ∷ []

abbrev pub text_list : List Str → Json
text_list xs = arr (items (map text xs))

-- What is printed up to the end of a section, and what the next one uses.
abbrev pub Section : Type 0 → Type 0
Section A = List Str × Option A

-- one section behind another
abbrev pub then_section : {A B : Type 0} → Section A → (A → Section B) → Section B
then_section (lines, none) f = (lines, none)
then_section (lines, some a) f = let (more, b) = f a in (lines ++ more, b)
