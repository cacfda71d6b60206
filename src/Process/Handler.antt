-- ===== src/Process/Handler.antt =====
-- The handler of handle_signals.c, and `sig_clean_up` of main.cpp, which it calls.
use wifigateway_server.Base.{
  ℕ, zero, suc, ◌+◌, Bool, true, ◌||◌, Option, none, some, List, [], ◌∷◌, ◌++◌, ◌==◌, if◌then◌else◌,
}
use wifigateway_server.Base.Int.{ℤ, pos, is_zero}
use wifigateway_server.Qt.Text.{QString, codes}
use wifigateway_server.Process.Numbers.{
  sighup, sigint, sigquit, sigill, sigtrap, sigabrt, sigbus, sigfpe, sigkill, sigusr1, sigsegv,
  sigusr2, sigpipe, sigalrm, sigterm, sigchld, sigcont, sigstop, sigtstp, sigttin, sigttou, sigurg,
  sigxcpu, sigxfsz, sigprof, sigpoll, sigsys,
}

-- What a handler can change: `written` is what has been written to the standard error, `quits` the
-- number of calls of qApp->quit(), `has_app` whether qApp is set, `continued` the static of
-- sig_clean_up, `interrupts` the number of SIGINTs sent to the process group, and `exit_status` is
-- none while the process runs.
pub record Process : Type 0 where
  pub written : QString
  pub quits : ℕ
  pub has_app : Bool
  pub continued : Bool
  pub interrupts : ℕ
  pub exit_status : Option ℕ

-- A client's clean-up function: what it returns, and what it has done.
abbrev pub CleanUp : Type 0
CleanUp = ℕ → Process → ℤ × Process

abbrev pub take : ℕ → QString → QString
take zero s = []
take (suc n) [] = []
take (suc n) (b ∷ s) = b ∷ take n s

-- `write(STDERR_FILENO, str, len)` for a C string, which ends with a NUL.
abbrev pub write : QString → ℕ → Process → Process
write str len p = record p { written = p.written ++ take len (str ++ 0 ∷ []) }

-- `struct sig_to_string`.
pub record SigToString : Type 0 where
  pub sig : ℕ
  pub str : QString
  pub len : ℕ

abbrev entry : ℕ → QString → ℕ → SigToString
entry sig str len = record { sig = sig; str = str; len = len }

unfoldable pub sigmap : List SigToString
sigmap =
    entry sigbus (codes "SIGBUS") 6
    ∷ entry sigfpe (codes "SIGFPE") 6
    ∷ entry sigill (codes "SIGILL") 6
    ∷ entry sigpipe (codes "SIGPIPE") 7
    ∷ entry sigsegv (codes "SIGSEGV") 7
    ∷ entry sigsys (codes "SIGSYS") 7
    ∷ entry sigxcpu (codes "SIGXCPU") 7
    ∷ entry sigxfsz (codes "SIGXFSZ") 7
    ∷ entry sigabrt (codes "SIGABRT") 7
    ∷ entry sighup (codes "SIGHUP") 6
    ∷ entry sigint (codes "SIGINT") 6
    ∷ entry sigkill (codes "SIGKILL") 7
    ∷ entry sigquit (codes "SIGQUIT") 7
    ∷ entry sigterm (codes "SIGTERM") 7
    ∷ entry sigusr1 (codes "SIGUSR1") 7
    ∷ entry sigusr2 (codes "SIGUSR2") 7
    ∷ entry sigchld (codes "SIGCHLD") 7
    ∷ entry sigcont (codes "SIGCONT") 7
    ∷ entry sigstop (codes "SIGSTOP") 7
    ∷ entry sigtstp (codes "SIGTSTP") 7
    ∷ entry sigttin (codes "SIGTTIN") 7
    ∷ entry sigttou (codes "SIGTTOU") 7
    ∷ entry sigalrm (codes "SIGALRM") 7
    ∷ entry sigprof (codes "SIGPROF") 7
    ∷ entry sigpoll (codes "SIGPOLL") 7
    ∷ entry sigtrap (codes "SIGTRAP") 7
    ∷ entry sigurg (codes "SIGURG") 6
    ∷ []

-- The loop of `handler`. It ends at the first entry of the signal, or after the last one.
abbrev pub write_name : List SigToString → ℕ → Process → Process
write_name [] signum p = p
write_name (e ∷ es) signum p =
    let rest = write_name es signum p in if e.sig == signum then write e.str e.len p else rest

-- `cleanup` if it is not NULL; `cont` is 0 before it.
abbrev pub call_clean_up : Option CleanUp → ℕ → Process → ℤ × Process
call_clean_up none signum p = (pos 0, p)
call_clean_up (some cleanup) signum p = cleanup signum p

-- `kill(0, SIGINT); _exit(EXIT_FAILURE);`. The signal itself is blocked in a handler.
abbrev pub give_up : Process → Process
give_up p = record p { interrupts = p.interrupts + 1; exit_status = some 1 }

-- The message of `handler`.
unfoldable pub report : ℕ → Process → Process
report signum p =
    write (codes ").\n") 3 (write_name sigmap signum (write (codes "Terminal signal (") 17 p))

unfoldable pub handler : Option CleanUp → ℕ → Process → Process
handler cleanup signum p =
    let (cont, q) = call_clean_up cleanup signum (report signum p) in
    if is_zero cont then give_up q else q

-- A signal that says that the program has gone wrong.
abbrev pub is_abnormal : ℕ → Bool
is_abnormal signum = signum == sigbus || signum == sigfpe || signum == sigill || signum == sigsegv

unfoldable pub sig_clean_up : CleanUp
sig_clean_up signum p =
    let q = if is_abnormal signum then write (codes "Abnormal Termination.\n") 22 p else p in
    let (cont, r) : ℤ × Process =
      if q.has_app then (pos 1, record q { quits = q.quits + 1 }) else (pos 0, q) in
    (if r.continued then pos 0 else cont, record r { continued = true })
