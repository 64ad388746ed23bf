-- ===== src/Options/Spelling.antt =====
-- Printing and reading words: what it means that the two agree.
use Prim.Native.String.{String}
use kahypar.Prelude.{◌≡◌, Bool, Option, none, some, if◌then◌else◌}

-- What is printed for an option is read as that option, or refused where `refused` says so.
abbrev pub ReadsBack : {T : Type 0} → (T → String) → (String → Option T) → (T → Bool) → Type 0
ReadsBack {T} print parse refused = (e : T) → parse (print e) ≡ (if refused e then none else some e)

-- `word` is what is printed for the option that was read from it, if one was.
abbrev pub Spells : {T : Type 0} → (T → String) → String → Option T → Type 0
Spells print word none = Unit
Spells print word (some e) = print e ≡ word

abbrev pub PrintsBack : {T : Type 0} → (T → String) → (String → Option T) → Type 0
PrintsBack print parse = (word : String) → Spells print word (parse word)
