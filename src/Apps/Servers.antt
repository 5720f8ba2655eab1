-- ===== src/Apps/Servers.antt =====
-- library/servers: the requests and replies, and the functions by which applications use the
-- servers. A server is seen through the two system calls that a client makes: a send of a request,
-- and a receive of a reply with the pid of its sender. Bytes of a block are a function of the index.
use egos_project.Prelude.{
  ℕ, ◌+◌, ◌*◌, Bool, true, false, ◌==◌, ltb, leb, if◌then◌else◌, Option, none, some, List, length,
  Run, ok, fatal, undefined, server_error, assert, ◌>>=◌, ◌>>◌,
}
use egos_project.Grass.Process.{gpid_file, gpid_dir, gpid_net}
use egos_project.Earth.Disk.{block_size}

abbrev pub Bytes : Type 0
Bytes = ℕ → ℕ

-- memcpy of the first `n` bytes.
abbrev pub copy_bytes : (n : ℕ) (src dst : Bytes) → Bytes
copy_bytes n src dst i = if ltb i n then src i else dst i

pub data FileOp : Type 0 where
  file_unused file_read_op file_write_op file_getsize_op : FileOp

pub record FileRequest : Type 0 where
  pub type : FileOp
  pub ino : ℕ
  pub offset : ℕ
  pub len : ℕ
  pub block : Bytes

-- FILE_OK is true.
pub record FileReply : Type 0 where
  pub status : Bool
  pub block : Bytes

-- DIR_NAME_SIZE
abbrev pub dir_name_size : ℕ
dir_name_size = 32

pub data DirOp : Type 0 where
  dir_unused dir_lookup_op dir_insert_op dir_remove_op : DirOp

pub record DirRequest : Type 0 where
  pub type : DirOp
  pub ino : ℕ
  pub name : List ℕ

-- DIR_OK is true; `none` stands for the inode number -1.
pub record DirReply : Type 0 where
  pub status : Bool
  pub ino : Option ℕ

pub data NetOp : Type 0 where
  net_send_op net_recv_op : NetOp

pub record NetRequest : Type 0 where
  pub type : NetOp
  pub length : ℕ
  pub buf : Bytes

-- NET_OK is true; a length that is not positive is 0.
pub record NetReply : Type 0 where
  pub status : Bool
  pub length : ℕ
  pub buf : Bytes

-- How a client sees a server with these requests and replies.
pub record Service (Request Reply : Type 0) : Type 1 where
  pub State : Type 0
  pub send : Request → State → Run State
  pub recv : State → Run (ℕ × Reply × State)

-- A send of a request, a receive of the reply, and the test of the sender.
abbrev pub query :
    {Request Reply : Type 0} (srv : Service Request Reply) (gpid : ℕ)
    → Request
    → srv.State
    → Run (Reply × srv.State)
query srv gpid req s = do
  s1 ← srv.send req s
  (sender, reply, s2) ← srv.recv s1
  if sender == gpid then ok (reply, s2) else fatal server_error

module _ (srv : Service DirRequest DirReply) where
  -- The name is copied into 32 bytes of the request.
  unfoldable pub dir_query :
      DirOp → (dir_ino : ℕ) (name : List ℕ) → srv.State → Run (Option ℕ × srv.State)
  dir_query type dir_ino name s = if leb dir_name_size (length name) then undefined else do
    (reply, s1) ← query srv gpid_dir (record { type = type; ino = dir_ino; name = name }) s
    ok (if reply.status then reply.ino else none, s1)

  unfoldable pub dir_lookup : (dir_ino : ℕ) (name : List ℕ) → srv.State → Run (Option ℕ × srv.State)
  unfolding dir_query
  dir_lookup = dir_query dir_lookup_op

  unfoldable pub dir_mk : (dir_ino : ℕ) (name : List ℕ) → srv.State → Run (Option ℕ × srv.State)
  unfolding dir_query
  dir_mk = dir_query dir_insert_op

  unfoldable pub dir_rm : (dir_ino : ℕ) (name : List ℕ) → srv.State → Run (Option ℕ × srv.State)
  unfolding dir_query
  dir_rm = dir_query dir_remove_op

abbrev is_write : FileOp → Bool
is_write file_write_op = true
is_write _ = false

abbrev replies_block : FileOp → Bool
replies_block file_read_op = true
replies_block file_getsize_op = true
replies_block _ = false

module _ (srv : Service FileRequest FileReply) where
  -- The result is whether the status is FILE_OK, and the caller's buffer. `unset` is what the
  -- request's block holds before anything is written to it. A copy of more than a block leaves the
  -- request or the reply.
  unfoldable pub file_query :
      FileOp
      → (file_ino offset len : ℕ) (block unset : Bytes) → srv.State
      → Run (Bool × Bytes × srv.State)
  file_query type file_ino offset len block unset s =
      if leb len block_size
      then (do
        let req : FileRequest = record {
          type = type;
          ino = file_ino;
          offset = offset;
          len = len;
          block = if is_write type then copy_bytes len block unset else unset;
        }
        (reply, s1) ← query srv gpid_file req s
        ok (
          reply.status,
          if replies_block type then copy_bytes len reply.block block else block,
          s1,
        ))
      else undefined

  unfoldable pub file_read :
      (file_ino offset len : ℕ) (block unset : Bytes) → srv.State → Run (Bool × Bytes × srv.State)
  unfolding file_query
  file_read = file_query file_read_op

  unfoldable pub file_write :
      (file_ino offset len : ℕ) (block unset : Bytes) → srv.State → Run (Bool × Bytes × srv.State)
  unfolding file_query
  file_write = file_query file_write_op

  -- The size is the reply's first word; `none` stands for -1.
  unfoldable pub file_size :
      (file_ino : ℕ) (buf unset : Bytes) → srv.State → Run (Option ℕ × srv.State)
  unfolding file_query
  file_size file_ino buf unset s = do
    (done, buf', s1) ← file_query file_getsize_op file_ino 0 4 buf unset s
    ok (
      if done
          then some (buf' 0 + 0x100 * buf' 1 + 0x1_0000 * buf' 2 + 0x100_0000 * buf' 3)
          else none,
      s1,
    )

module _ (srv : Service NetRequest NetReply) where
  unfoldable pub net_send : (length : ℕ) (packet unset : Bytes) → srv.State → Run (Bool × srv.State)
  net_send length packet unset s = do
    assert (leb length 512)
    let req : NetRequest = record {
      type = net_send_op;
      length = length;
      buf = copy_bytes length packet unset;
    }
    (reply, s1) ← query srv gpid_net req s
    ok (reply.status, s1)

  -- The result is the length and the caller's buffer, or `none` for -1.
  unfoldable pub net_recv : (packet unset : Bytes) → srv.State → Run (Option ℕ × Bytes × srv.State)
  net_recv packet unset s = do
    (reply, s1) ← query srv gpid_net (record { type = net_recv_op; length = 0; buf = unset }) s
    if reply.status
        then (if leb reply.length 512
            then ok (some reply.length, copy_bytes reply.length reply.buf packet, s1)
            else undefined)
        else ok (none, packet, s1)
