-- ===== src/Logging/Setup.antt =====
-- services/logger.py: what `setup_logger` leaves of the handlers, old and new.
use smart_http_requester.Common.{
  ◌+◌, String, true, false, List, [], ◌∷◌, ◌++◌, if◌then◌else◌, str_eq, ◌≡◌, refl, ap, ◌∙◌, sym,
  subst, append_assoc, append-nil, arith, eq_refl, ==_refl, Bool-cases, inl, inr,
}
use smart_http_requester.Common.Int.{ℤ}
use smart_http_requester.Session.{Outcome, ok, err, os_error}
use smart_http_requester.Logging.{
  LogPath, Handler, Logger, Logging, FileSystem, LoggerOptions, set_logger, log_dir_path,
  log_file_path, parent, remove_handler, close_handler, drop_handlers, mkdir, configure,
  file_handler, add_file_handler, with_directories, setup_logger,
}

set_logger-get : (name : String) (l : Logger) (g : Logging) → (set_logger name l g).loggers name ≡ l
set_logger-get name l g = ground (arith, eq_refl name)

set_logger-other :
    (name other : String) (l : Logger) (g : Logging)
    → str_eq other name ≡ false
    → (set_logger name l g).loggers other ≡ g.loggers other
set_logger-other name other l g h = ground (arith, h)

mkdir_done :
    (fs : FileSystem) (path : LogPath) (next : Logging → Outcome String × Logging) (g : Logging)
    → fs.makes path ≡ true
    → mkdir fs path next g ≡ next (record g { directories = g.directories ++ path ∷ [] })
mkdir_done fs path next g h = rw h refl

module _ (name other : String) (apart : str_eq other name ≡ false) where
  -- The loop takes the handlers of the logger, all of them, and closes each.
  dropped :
      (hs : List Handler) (g : Logging)
      → (g.loggers name).handlers ≡ hs
      → let g' = drop_handlers name hs g in
        (g'.loggers name ≡ record (g.loggers name) { handlers = [] })
        × (g'.closed ≡ g.closed ++ hs)
        × (g'.made ≡ g.made)
        × (g'.loggers other ≡ g.loggers other)
  unfolding drop_handlers
  dropped [] g h = (
    ap (λ hs. record (g.loggers name) { handlers = hs }) h,
    sym (append-nil g.closed),
    refl,
    refl,
  )
  dropped (k ∷ hs) g h =
      let left : remove_handler k (g.loggers name).handlers ≡ hs = rw (h, ==_refl k.number) refl in
      let l = record (g.loggers name) { handlers = remove_handler k (g.loggers name).handlers } in
      let g1 = close_handler k (set_logger name l g) in
      let here = set_logger-get name l g in
      let (a, b, c, d) = dropped hs g1 (ap (λ (x : Logger). x.handlers) here ∙ left) in
      (
        a ∙ ap (λ (x : Logger). record x { handlers = [] }) here,
        b ∙ append_assoc g.closed (k ∷ []) hs,
        c,
        d ∙ set_logger-other name other l g apart,
      )

  abbrev Leaves : FileSystem → LogPath → LoggerOptions → Logging → Outcome String × Logging → Type 0
  Leaves fs path options g (r, g') =
      (r ≡ (if fs.opens path then ok name else err os_error))
      × (g'.loggers name ≡ record {
        level = options.level;
        propagate = false;
        handlers = if fs.opens path then file_handler g.made path options ∷ [] else [];
      })
      × (g'.closed ≡ g.closed ++ (g.loggers name).handlers)
      × (g'.loggers other ≡ g.loggers other)

  configured :
      (level : ℤ) (g : Logging)
      → let g' = configure name level g in
        (g'.loggers name
          ≡ record { level = level; propagate = false; handlers = (g.loggers name).handlers })
        × (g'.loggers other ≡ g.loggers other)
  configured level g =
      let l = record (g.loggers name) { level = level; propagate = false } in
      (set_logger-get name l g, set_logger-other name other l g apart)

  added :
      (fs : FileSystem) (path : LogPath) (options : LoggerOptions) (g : Logging) (l : Logger)
      → g.loggers name ≡ record l { handlers = [] }
      → let (r, g') = add_file_handler fs name path options g in
        (r ≡ (if fs.opens path then ok name else err os_error))
        × (g'.loggers name ≡ record l {
          handlers = if fs.opens path then file_handler g.made path options ∷ [] else [];
        })
        × (g'.closed ≡ g.closed)
        × (g'.loggers other ≡ g.loggers other)
  added fs path options g l h =
      let hs = (g.loggers name).handlers ++ file_handler g.made path options ∷ [] in
      let more =
        set_logger-get name (record (g.loggers name) { handlers = hs })
          (record g { made = g.made + 1 }) in
      elim (Bool-cases (fs.opens path)) [
        | inl e ↦ rw (e) (
          refl,
          more
              ∙ ap
                  (λ (x : Logger). record x {
                    handlers = x.handlers ++ file_handler g.made path options ∷ [];
                  })
                  h,
          refl,
          set_logger-other name other (record (g.loggers name) { handlers = hs })
              (record g { made = g.made + 1 }) apart,
        )
        | inr e ↦ rw (e) (refl, h, refl, refl)
      ]

  replaced :
      (fs : FileSystem) (path : LogPath) (options : LoggerOptions) (g : Logging)
      → Leaves fs path options g (with_directories fs name path options g)
  replaced fs path options g =
      let g1 = configure name options.level g in
      let g2 = drop_handlers name (g1.loggers name).handlers g1 in
      let (here, there) = configured options.level g in
      let (a, b, c, d) = dropped (g1.loggers name).handlers g1 refl in
      let l : Logger = record {
        level = options.level;
        propagate = false;
        handlers = (g.loggers name).handlers;
      } in
      let (r, a', b', d') =
        added fs path options g2 l (a ∙ ap (λ (x : Logger). record x { handlers = [] }) here) in
      (
        r,
        a'
            ∙ ap
                (λ n. record l {
                  handlers = if fs.opens path then file_handler n path options ∷ [] else [];
                })
                c,
        b' ∙ b ∙ ap (λ (x : Logger). g.closed ++ x.handlers) here,
        d' ∙ d ∙ there,
      )

  -- Where the directories are there or are made, the logger of the name has its new level and
  -- passes nothing to others; it has the new handler alone if the log file opens, and none if it
  -- does not, which raises. The handlers that it had are closed in their order, and no other logger
  -- changes.
  setup_logger_effect :
      (fs : FileSystem) (options : LoggerOptions) (g : Logging)
      → fs.makes (log_dir_path options.log_dir) ≡ true
      → fs.makes (parent (log_file_path name (log_dir_path options.log_dir) options.log_file))
        ≡ true
      → let path = log_file_path name (log_dir_path options.log_dir) options.log_file in
        let (r, g') = setup_logger fs name options g in
        (r ≡ (if fs.opens path then ok name else err os_error))
        × (g'.loggers name ≡ record {
          level = options.level;
          propagate = false;
          handlers = if fs.opens path then file_handler g.made path options ∷ [] else [];
        })
        × (g'.closed ≡ g.closed ++ (g.loggers name).handlers)
        × (g'.loggers other ≡ g.loggers other)
  unfolding setup_logger
  setup_logger_effect fs options g m n =
      let dir = log_dir_path options.log_dir in
      let path = log_file_path name dir options.log_file in
      let last = with_directories fs name path options in
      let g1 = record g { directories = g.directories ++ dir ∷ [] } in
      let run : setup_logger fs name options g
          ≡ last (record g1 { directories = g1.directories ++ parent path ∷ [] }) =
        mkdir_done fs dir (mkdir fs (parent path) last) g m
        ∙ mkdir_done fs (parent path) last g1 n in
      subst (Leaves fs path options g) (sym run)
        (replaced fs path options (record g1 { directories = g1.directories ++ parent path ∷ [] }))
