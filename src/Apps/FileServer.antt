-- ===== src/Apps/FileServer.antt =====
-- apps/system/sys_file.c, the read-only build: the server's answer to a request.
pub mod Reads
use egos_project.Prelude.{
  ℕ, ◌/◌, ◌%◌, ◌^◌, ◌*◌, Bool, true, false, ltb, if◌then◌else◌, Option, none, some, Run, ok, fatal,
  server_error, invalid_request, ◌>>=◌,
}
use egos_project.Grass.Process.{gpid_file}
use egos_project.TreeDisk.Store.{Block, InodeStore}
use egos_project.TreeDisk.Access.{treedisk_read}
use egos_project.Apps.Servers.{
  Bytes, FileOp, file_read_op, file_write_op, file_getsize_op, FileRequest, FileReply, Service,
}

-- FS_ROOT_INODE: the inode numbers from here on are the read-write file system's.
abbrev pub fs_root_inode : ℕ
fs_root_inode = 100

-- The bytes of a block.
abbrev pub bytes_of : Block → Bytes
bytes_of b i = b (i / 4) / 0x100 ^ (i % 4) % 0x100

module _ (below : InodeStore) (below_ino : ℕ) where
  -- The reply stands where the request stood, so after a read that fails it holds what the read
  -- has left there, `stale`.
  unfoldable pub answer : FileRequest → Bytes → below.State → Run FileReply
  answer req stale s = elim req.type [
    | file_read_op ↦
        if ltb req.ino fs_root_inode
        then (do
          r ← treedisk_read below below_ino req.ino req.offset s
          elim r [
            | none ↦ ok (record { status = false; block = stale })
            | some b ↦ ok (record { status = true; block = bytes_of b })
          ])
        else fatal server_error
    | file_write_op ↦
        if ltb req.ino fs_root_inode
        then ok (record { status = false; block = stale })
        else fatal server_error
    | file_getsize_op ↦
        if ltb req.ino fs_root_inode
        then ok (record { status = false; block = stale })
        else fatal server_error
    | _ ↦ fatal invalid_request
  ]

  -- The server as its clients see it: the reply waits until it is received.
  abbrev pub file_service : Bytes → Service FileRequest FileReply
  file_service stale = record {
    State = Option FileReply × below.State;
    send = λ req (_, s). answer req stale s >>= λ reply. ok (some reply, s);
    recv = λ (waiting, s). elim waiting [
      | none ↦ fatal server_error
      | some reply ↦ ok (gpid_file, reply, (none, s))
    ];
  }
