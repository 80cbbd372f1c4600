-- ===== src/Service/Arguments.antt =====
-- The command line of the service (server/easysyncservice.cpp, the loop of start over the arguments).
use easysync.Prelude.{
  ◌≡◌, refl, Bool, true, false, ◌||◌, List, [], ◌∷◌, ◌++◌, ◌∙◌, arith, All, if◌then◌else◌,
}
use easysync.Text.{Text, text_eq, codes}

-- `username` and `configPath` of start; both are empty at first.
pub record Options : Type 0 where
  pub username : Text
  pub config_path : Text

abbrev pub adduser_flag : Text
adduser_flag = codes "--adduser"

abbrev pub config_flag : Text
config_flag = codes "--config"

abbrev pub is_flag : Text → Bool
is_flag arg = text_eq arg adduser_flag || text_eq arg config_flag

-- The loop, over the arguments that are left. Behind the last one stands the null pointer, of which
-- `fromLocal8Bit` makes an empty text.
unfoldable pub process_arguments : List Text → Options → Options
process_arguments [] o = o
process_arguments (arg ∷ []) o =
    if text_eq arg adduser_flag
    then record o { username = [] }
    else if text_eq arg config_flag
    then record o { config_path = [] }
    else o
process_arguments (arg ∷ next ∷ args) o = elim (text_eq arg adduser_flag) [
  | true ↦ process_arguments args (record o { username = next })
  | false ↦ elim (text_eq arg config_flag) [
    | true ↦ process_arguments args (record o { config_path = next })
    | false ↦ process_arguments (next ∷ args) o
  ]
]

-- What a command line is made of: the two options with their values, and other words.
pub data Part : Type 0 where
  adduser config word : Text → Part

abbrev pub part_words : Part → List Text
part_words (adduser name) = adduser_flag ∷ name ∷ []
part_words (config path) = config_flag ∷ path ∷ []
part_words (word arg) = arg ∷ []

abbrev pub words : List Part → List Text
words [] = []
words (p ∷ ps) = part_words p ++ words ps

-- A word is none of the options.
abbrev pub IsPlain : Part → Type 0
IsPlain (word arg) = is_flag arg ≡ false
IsPlain _ = Unit {0}

-- The meaning of a command line: the last value of each option counts.
abbrev pub set_by : Part → Options → Options
set_by (adduser name) o = record o { username = name }
set_by (config path) o = record o { config_path = path }
set_by (word arg) o = o

abbrev pub meaning : List Part → Options → Options
meaning [] o = o
meaning (p ∷ ps) o = meaning ps (set_by p o)

process_arguments-word :
    (arg : Text) (args : List Text) (o : Options)
    → is_flag arg ≡ false
    → process_arguments (arg ∷ args) o ≡ process_arguments args o
unfolding process_arguments
process_arguments-word arg [] o h = ground arith
process_arguments-word arg (next ∷ args) o h = ground arith

-- On a command line of options with their values and of other words, which are no options, the loop
-- over the arguments gives each option its last value and passes over the other words: it agrees
-- with the meaning of the line read part by part.
pub process_arguments-words :
    (ps : List Part) (o : Options) → All IsPlain ps → process_arguments (words ps) o ≡ meaning ps o
unfolding process_arguments
process_arguments-words [] o h = refl
process_arguments-words (adduser name ∷ ps) o h =
    process_arguments-words ps (record o { username = name }) h.1
process_arguments-words (config path ∷ ps) o h =
    process_arguments-words ps (record o { config_path = path }) h.1
process_arguments-words (word arg ∷ ps) o h =
    process_arguments-word arg (words ps) o h.0 ∙ process_arguments-words ps o h.1
