-- ===== src/Apps/ProcServer.antt =====
-- apps/system/sys_proc.c: the server that starts and ends processes. It calls the kernel's functions
-- directly, and the servers of directories and files by messages.
pub mod Serving
use egos_project.Prelude.{
  ℕ, ◌+◌, ◌-◌, ◌*◌, ◌/◌, ◌%◌, Bool, true, false, not, ◌&&◌, ltb, leb, ◌==◌, if◌then◌else◌, Option,
  none, some, List, [], ◌∷◌, Run, ok, fatal, undefined, invalid_request, ◌>>=◌,
}
use egos_project.Machine.Memory.{Memory}
use egos_project.Earth.Disk.{flash_rom, block_size, disk_read}
use egos_project.Grass.Process.{
  Kernel, with_mmu, gpid_user_start, proc_alloc, proc_free, proc_free_all, proc_set_ready,
  proc_sleep,
}
use egos_project.Loader.{Reader, word_of}
use egos_project.Loader.App.{elf_load}
use egos_project.Apps.Shell.{cmd_nargs, cmd_arg_len, ProcRequest}
use egos_project.Apps.Servers.{
  Bytes, Service, DirRequest, DirReply, FileRequest, FileReply, dir_lookup, file_read,
}
use egos_project.Apps.DirServer.{c_string}

pub data ProcOp : Type 0 where
  proc_spawn_op proc_exit_op proc_sleep_op proc_killall_op unknown_op : ProcOp

-- The words of a reply; the reply to an exit stands where the request stood and keeps its word.
abbrev pub cmd_ok : ℕ
cmd_ok = 0

abbrev pub cmd_error : ℕ
cmd_error = 1

abbrev pub proc_exit_word : ℕ
proc_exit_word = 1

-- "bin/"
abbrev pub bin_name : List ℕ
bin_name = 98 ∷ 105 ∷ 110 ∷ 47 ∷ []

-- '&'
abbrev pub ampersand : ℕ
ampersand = 38

-- An inode number as the client gets it, where -1 is 2 ^ 32 - 1.
abbrev pub as_unsigned : Option ℕ → ℕ
as_unsigned none = 0xFFFF_FFFF
as_unsigned (some ino) = ino

-- req->argv as bytes.
abbrev pub argv_bytes : ProcRequest → Bytes
argv_bytes req k = req.argv (k / cmd_arg_len) (k % cmd_arg_len)

-- Whether the last argument starts with '&'. Without arguments the index is -1.
unfoldable pub in_background : ProcRequest → Run Bool
in_background req =
    if ltb 0 req.argc && leb req.argc cmd_nargs
    then ok (req.argv (req.argc - 1) 0 == ampersand)
    else undefined

-- GRASS_EXEC_START and the blocks of the executables of the system's processes behind it.
abbrev pub exec_start : ℕ → ℕ
exec_start i = 1024 * 1024 / 512 + 1024 * 1024 / 8 / 512 * i

-- A block of an executable, read into a buffer at `dst`.
abbrev pub sys_proc_read : (base dst : ℕ) → Memory → Reader
sys_proc_read base dst m block_no = do
  m' ← disk_read flash_rom (base + block_no) 1 dst m
  ok (λ i. m' (dst + i))

-- There are the names of five processes, one of which is printed.
unfoldable pub sys_spawn : (base dst : ℕ) → Kernel → Run Kernel
sys_spawn base dst k = do
  (pid, k1) ← proc_alloc k
  named ← if leb pid 5 then ok pid else undefined
  mmu ← elf_load pid 0 (sys_proc_read base dst k1.mmu.pages.mem) none k1.mmu
  proc_set_ready pid (with_mmu k1 mmu)

module _ (dirs : Service DirRequest DirReply) (files : Service FileRequest FileReply)
    (unset : Bytes) where
  -- app_pid and shell_waiting, with the state of the kernel and of the two servers.
  pub record ProcServer : Type 0 where
    pub kernel : Kernel
    pub dir_state : dirs.State
    pub file_state : files.State
    pub app_pid : ℕ
    pub shell_waiting : Bool

  -- A failed read is not looked at. The file server is as before when it has answered.
  abbrev pub app_read : (app_ino : ℕ) → files.State → Reader
  app_read app_ino f off = do
    (_, dst, _) ← file_read files app_ino off block_size unset unset f
    ok dst

  -- A process for the executable `app_ino`.
  unfoldable pub spawn_file : (app_ino : ℕ) → ProcRequest → ProcServer → Run (Bool × ProcServer)
  spawn_file app_ino req s = do
    (pid, k1) ← proc_alloc s.kernel
    background ← in_background req
    let argc = if background then req.argc - 1 else req.argc
    mmu ← elf_load pid argc (app_read app_ino s.file_state) (some (argv_bytes req)) k1.mmu
    k2 ← proc_set_ready pid (with_mmu k1 mmu)
    ok (true, record s { kernel = k2; app_pid = pid })

  -- A row of argv without a 0 is no string.
  unfoldable pub app_spawn : ProcRequest → ProcServer → Run (Bool × ProcServer)
  unfolding spawn_file
  app_spawn req s = do
    (bin_ino, d1) ← dir_lookup dirs 0 bin_name s.dir_state
    elim (c_string cmd_arg_len 0 (req.argv 0)) [
      | none ↦ undefined
      | some name ↦ do
        (app_ino, d2) ← dir_lookup dirs (as_unsigned bin_ino) name d1
        elim app_ino [
          | none ↦ ok (false, record s { dir_state = d2 })
          | some ino ↦ spawn_file ino req (record s { dir_state = d2 })
        ]
    ]

  -- The server's work on one message: the word that it sends to the shell, if any.
  unfoldable pub handle_request :
      (sender : ℕ) → ProcOp → ProcRequest → ProcServer → Run (Option ℕ × ProcServer)
  unfolding app_spawn in_background
  handle_request sender proc_spawn_op req s = do
    (started, s1) ← app_spawn req s
    background ← in_background req
    ok (some (if started then cmd_ok else cmd_error), record s1 { shell_waiting = not background })
  handle_request sender proc_sleep_op req s =
      if req.argc == 1 && leb gpid_user_start sender
      then (do
        k ← proc_sleep sender (word_of (argv_bytes req) 0) s.kernel
        ok (none, record s { kernel = k }))
      else fatal invalid_request
  handle_request sender proc_exit_op req s = do
    k ← proc_free sender s.kernel
    ok (
      if s.shell_waiting && s.app_pid == sender then some proc_exit_word else none,
      record s { kernel = k },
    )
  handle_request sender proc_killall_op req s = do
    k ← proc_free_all s.kernel
    ok (none, record s { kernel = k })
  handle_request sender unknown_op req s = fatal invalid_request
