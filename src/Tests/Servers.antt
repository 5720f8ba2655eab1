-- ===== src/Tests/Servers.antt =====
-- A client reads a file, and the server of directories looks up a name.
use egos_project.Prelude.{
  ℕ, ◌≡◌, refl, ◌≢◌, arith, All, List, [], ◌∷◌, some, none, Option, Run, undefined, true, ok, ◌>>=◌,
}
use egos_project.Machine.{pid2idx}
use egos_project.Bitmap.{bit_clear}
use egos_project.Earth.PageAlloc.{pfree, paddr2pageid}
use egos_project.Earth.Mmu.{soft_tlb_free}
use egos_project.Grass.Process.{proc_free}
use egos_project.TreeDisk.Access.{treedisk_read}
use egos_project.TreeDisk.RamDisk.{ramdisk_init}
use egos_project.Apps.Shell.{ProcRequest}
use egos_project.Apps.Servers.{Service, DirRequest, DirReply, FileRequest, FileReply, file_read}
use egos_project.Apps.ProcServer.{ProcServer, proc_exit_op, proc_exit_word, handle_request}
use egos_project.Apps.ProcServer.Serving.{IsServing, Done, handle_request-IsServing}
use egos_project.Tests.Kernel.{kernel0, kernel0-IsLive}
use egos_project.Apps.FileServer.{file_service}
use egos_project.Apps.FileServer.Reads.{received, file_read-received}
use egos_project.Apps.DirServer.{lookup_text}
use egos_project.Apps.DirServer.Entries.{Entry, text_of, IsEntry, lookup_text-find_entry}
use egos_project.Tests.Files.{fs}

file_read-received_example :
    file_read (file_service ramdisk_init 0 (λ i. 9)) 0 0 512 (λ i. 7) (λ i. 8) (none, fs) ≡ (
      treedisk_read ramdisk_init 0 0 0 fs >>= λ r.
      ok (received ramdisk_init 0 (λ i. 9) 512 (λ i. 7) fs r))
file_read-received_example =
    file_read-received ramdisk_init 0 (λ i. 9) 0 0 512 (λ i. 7) (λ i. 8) (none, fs) (omega arith)
      (omega arith)

-- "home   1 " and "bin   12 ", and the name "bin".
abbrev home : Entry
home = record { name = 104 ∷ 111 ∷ 109 ∷ 101 ∷ []; gap = 2; number = 49 ∷ []; pad = 0 }

abbrev bin : Entry
bin = record { name = 98 ∷ 105 ∷ 110 ∷ []; gap = 2; number = 49 ∷ 50 ∷ []; pad = 0 }

-- Different codes, and a list that is not empty.
abbrev PlainName : List ℕ → Type 0
PlainName = All (λ c. c ≢ 32)

home-plain : PlainName home.name
home-plain =
    ((λ e. omega arith), ((λ e. omega arith), ((λ e. omega arith), ((λ e. omega arith), tt))))

bin-plain : PlainName bin.name
bin-plain = ((λ e. omega arith), ((λ e. omega arith), ((λ e. omega arith), tt)))

entries-All : All IsEntry (home ∷ bin ∷ [])
entries-All = (
  (home-plain, (λ e. cc), ((omega arith, omega arith), tt)),
  ((bin-plain, (λ e. cc), ((omega arith, omega arith), ((omega arith, omega arith), tt))), tt),
)

lookup_text-find_entry_example : lookup_text (text_of (home ∷ bin ∷ [])) bin.name ≡ ok (some 12)
lookup_text-find_entry_example =
    lookup_text-find_entry (home ∷ bin ∷ []) bin.name entries-All (omega arith, (omega arith, tt))
      (omega arith) bin-plain (λ e. cc) (omega arith) ((λ e. cc), ((λ e. cc), tt))

-- The file server's process leaves, and the process server frees it.
abbrev silent : (Request Reply : Type 0) → Service Request Reply
silent Request Reply = record { State = ℕ; send = λ req s. ok s; recv = λ s. undefined }

abbrev proc_server : ProcServer (silent DirRequest DirReply) (silent FileRequest FileReply) (λ i. 0)
proc_server = record {
  kernel = kernel0;
  dir_state = 0;
  file_state = 0;
  app_pid = 2;
  shell_waiting = true;
}

abbrev no_arguments : ProcRequest
no_arguments = record { argc = 0; argv = λ i j. 0 }

abbrev exited :
    Run (Option ℕ × ProcServer (silent DirRequest DirReply) (silent FileRequest FileReply) (λ i. 0))
exited =
    handle_request (silent DirRequest DirReply) (silent FileRequest FileReply) (λ i. 0) 2
      proc_exit_op no_arguments proc_server

abbrev server_of :
    Run (Option ℕ × ProcServer (silent DirRequest DirReply) (silent FileRequest FileReply) (λ i. 0))
    → ProcServer (silent DirRequest DirReply) (silent FileRequest FileReply) (λ i. 0)
server_of (ok (reply, s)) = s
server_of _ = proc_server

exits : exited ≡ ok (some proc_exit_word, server_of exited)
unfolding handle_request proc_free soft_tlb_free pid2idx pfree paddr2pageid bit_clear
exits = refl

handle_request-IsServing_example :
    IsServing (server_of exited).kernel
    × Done
        (silent DirRequest DirReply)
        (silent FileRequest FileReply)
        (λ i. 0)
        proc_exit_op
        2
        proc_server
        (server_of exited)
handle_request-IsServing_example =
    handle_request-IsServing (silent DirRequest DirReply) (silent FileRequest FileReply) (λ i. 0) 2
      proc_exit_op no_arguments proc_server (server_of exited) (some proc_exit_word)
      (kernel0-IsLive, refl) (λ e. omega arith) exits
