-- ===== src/Logging.antt =====
-- services/logger.py: `setup_logger`, over the loggers of Python's logging and over pathlib.
pub mod Setup
use Prim.Native.Char.{Char, code}
use Prim.Native.String.{◌++◌ as append}
use smart_http_requester.Common.{
  ℕ, ◌+◌, String, Bool, true, false, not, Option, none, some, List, [], ◌∷◌, ◌++◌, if◌then◌else◌,
  ◌==◌, str_eq,
}
use smart_http_requester.Common.Int.{ℤ}
use smart_http_requester.Session.{Outcome, ok, err, os_error}

-- A PurePosixPath. A path that begins with exactly two slashes, which keeps both, is as one with
-- one.
pub record LogPath : Type 0 where
  pub absolute : Bool
  pub parts : List String

abbrev push : Char → List String → List String
push c [] = String.◌∷◌ c "" ∷ []
push c (p ∷ ps) = String.◌∷◌ c p ∷ ps

abbrev pub split_slashes : String → List String
split_slashes String.[] = "" ∷ []
split_slashes (String.◌∷◌ c s) =
    let rest = split_slashes s in if code c == b'/' then "" ∷ rest else push c rest

abbrev pub named : List String → List String
named [] = []
named (p ∷ ps) =
    let rest = named ps in if str_eq p "" then rest else if str_eq p "." then rest else p ∷ rest

abbrev pub is_absolute : String → Bool
is_absolute String.[] = false
is_absolute (String.◌∷◌ c s) = code c == b'/'

abbrev pub log_path : String → LogPath
log_path s = record { absolute = is_absolute s; parts = named (split_slashes s) }

-- `directory / file`
abbrev pub joined : LogPath → LogPath → LogPath
joined directory file =
    if file.absolute
    then file
    else record { absolute = directory.absolute; parts = directory.parts ++ file.parts }

abbrev pub but_last : List String → List String
but_last [] = []
but_last (p ∷ []) = []
but_last (p ∷ q ∷ ps) = p ∷ but_last (q ∷ ps)

abbrev pub parent : LogPath → LogPath
parent path = record { absolute = path.absolute; parts = but_last path.parts }

-- A TimedRotatingFileHandler, with the number of its creation. `when` is D, `interval` one, the
-- encoding UTF-8.
pub record Handler : Type 0 where
  pub number : ℕ
  pub filename : LogPath
  pub backup_count : ℕ
  pub format : String
  pub date_format : String
  pub level : ℤ

pub record Logger : Type 0 where
  pub level : ℤ
  pub propagate : Bool
  pub handlers : List Handler

-- The loggers by name, the handlers made so far and those closed, and the directories that `mkdir`
-- was called for.
pub record Logging : Type 0 where
  pub loggers : String → Logger
  pub made : ℕ
  pub closed : List Handler
  pub directories : List LogPath

-- Which directories the operating system makes or has, and which files it opens.
pub record FileSystem : Type 0 where
  pub makes : LogPath → Bool
  pub opens : LogPath → Bool

pub record LoggerOptions : Type 0 where
  pub log_dir : Option String
  pub log_file : Option String
  pub level : ℤ
  pub rotate_days : ℕ

abbrev pub default_log_format : String
default_log_format = "%(asctime)s | %(levelname)s | %(name)s | %(message)s"

abbrev pub default_date_format : String
default_date_format = "%Y-%m-%d %H:%M:%S"

abbrev pub set_logger : String → Logger → Logging → Logging
set_logger name l g = record g { loggers = λ n. if str_eq n name then l else g.loggers n }

abbrev pub set_handlers : String → List Handler → Logging → Logging
set_handlers name hs g = set_logger name (record (g.loggers name) { handlers = hs }) g

-- `log_dir or "logs"`: an empty text counts as none.
abbrev pub log_dir_path : Option String → LogPath
log_dir_path none = log_path "logs"
log_dir_path (some s) = if str_eq s "" then log_path "logs" else log_path s

abbrev pub log_file_path : String → LogPath → Option String → LogPath
log_file_path name dir none = joined dir (log_path (append name ".log"))
log_file_path name dir (some s) =
    if str_eq s "" then joined dir (log_path (append name ".log")) else log_path s

abbrev pub remove_handler : Handler → List Handler → List Handler
remove_handler h [] = []
remove_handler h (k ∷ ks) =
    let rest = remove_handler h ks in if h.number == k.number then ks else k ∷ rest

abbrev pub close_handler : Handler → Logging → Logging
close_handler h g = record g { closed = g.closed ++ h ∷ [] }

-- The loop, over a copy of the list that it takes the handlers from. Closing a handler raises
-- nothing.
unfoldable pub drop_handlers : String → List Handler → Logging → Logging
drop_handlers name [] g = g
drop_handlers name (h ∷ hs) g =
    drop_handlers name hs
      (close_handler h (set_handlers name (remove_handler h (g.loggers name).handlers) g))

-- `mkdir(parents=True, exist_ok=True)`, and what follows it.
abbrev pub mkdir :
    FileSystem → LogPath → (Logging → Outcome String × Logging) → Logging → Outcome String × Logging
mkdir fs path next g =
    if fs.makes path
    then next (record g { directories = g.directories ++ path ∷ [] })
    else (err os_error, g)

abbrev pub configure : String → ℤ → Logging → Logging
configure name level g =
    set_logger name (record (g.loggers name) { level = level; propagate = false }) g

abbrev pub file_handler : ℕ → LogPath → LoggerOptions → Handler
file_handler number path options = record {
  number = number;
  filename = path;
  backup_count = options.rotate_days;
  format = default_log_format;
  date_format = default_date_format;
  level = options.level;
}

-- The handler opens its file when it is made.
abbrev pub add_file_handler :
    FileSystem → String → LogPath → LoggerOptions → Logging → Outcome String × Logging
add_file_handler fs name path options g =
    if fs.opens path
    then (
      ok name,
      set_handlers name ((g.loggers name).handlers ++ file_handler g.made path options ∷ [])
          (record g { made = g.made + 1 }),
    )
    else (err os_error, g)

abbrev pub with_directories :
    FileSystem → String → LogPath → LoggerOptions → Logging → Outcome String × Logging
with_directories fs name path options g =
    let g' = configure name options.level g in
    add_file_handler fs name path options (drop_handlers name (g'.loggers name).handlers g')

-- The logger that is returned is the one of the name.
unfoldable pub setup_logger :
    FileSystem → String → LoggerOptions → Logging → Outcome String × Logging
setup_logger fs name options g =
    let dir = log_dir_path options.log_dir in
    let path = log_file_path name dir options.log_file in
    mkdir fs dir (mkdir fs (parent path) (with_directories fs name path options)) g
