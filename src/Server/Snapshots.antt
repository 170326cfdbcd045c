-- ===== src/Server/Snapshots.antt =====
-- src/agent/server.cpp, `send_snapshot`: the entries of a scan go out in frames as they come.
use wsldrive.Prelude.{
  ℕ, ◌+◌, Bool, true, false, not, ◌&&◌, [], ◌++◌, List, Bytes, length, null, leb, Option, none,
  some, if◌then◌else◌,
}
use wsldrive.Types.{Result, ok, err}
use wsldrive.Disk.{Disk}
use wsldrive.Ignore.{Pattern, ignored}
use wsldrive.Protocol.Header.{write_frame}
use wsldrive.Protocol.MsgTypes
use wsldrive.Protocol.MsgTypes.{flag_more}
use wsldrive.Protocol.Messages.{SnapshotEntry, write_snapshot_header, write_snapshot_entry}
use wsldrive.Channel.{Socket, FrameChannel, send_raw}
use wsldrive.Scanner.{ScanStats, scan_tree}
use wsldrive.Server.Files.{Served, send_error}
use wsldrive.Server.Texts.{scan_failed}

-- `entries`, `count` and `send_rc`, and the channel.
pub record Sending (S : Type 0) : Type 0 where
  pub entries : Bytes
  pub count : ℕ
  pub send_rc : Result (Unit {0})
  pub channel : FrameChannel S

unfoldable pub is_ok : Result (Unit {0}) → Bool
is_ok (ok u) = true
is_ok (err e) = false

-- `generation` is the value that is loaded before the scan.
module _ {W S : Type 0} (disk : Disk W) (socket : Socket S) (generation id : ℕ) where
  unfoldable pub flushed : Result (Unit {0}) × FrameChannel S → Sending S
  flushed (rc, ch) = record { entries = []; count = 0; send_rc = rc; channel = ch }

  unfoldable pub flush : Bool → Sending S → Sending S
  flush more x = flushed (
      send_raw socket
        (write_frame [] MsgTypes.snapshot id (write_snapshot_header generation x.count ++ x.entries)
          (if more then flag_more else 0))
        x.channel)

  unfoldable pub buffer_entry : ℕ → SnapshotEntry → Sending S → Sending S
  buffer_entry budget e x =
      let buffered = record x {
        entries = x.entries ++ write_snapshot_entry e;
        count = x.count + 1;
      } in
      if not (is_ok x.send_rc)
      then x
      else if leb budget (length buffered.entries)
      then flush true buffered
      else buffered

  unfoldable pub finish : Served W S → Result ScanStats × Sending S → Result (Unit {0}) × Served W S
  finish s (err e, x) = send_error disk socket id e scan_failed (record s { channel = x.channel })
  finish s (ok stats, x) =
      let last = flush false x in
      if not (is_ok x.send_rc)
      then (x.send_rc, record s { channel = x.channel })
      else (last.send_rc, record s { channel = last.channel })

  -- `fuel` counts the directories that are read; without enough of it there is no result.
  unfoldable pub send_snapshot :
      ℕ → ℕ → Bytes → List Pattern → Bool → Served W S → Option (Result (Unit {0}) × Served W S)
  send_snapshot fuel budget root ignore one_file_system s =
      elim (scan_tree fuel disk s.world root (buffer_entry budget)
        (λ rel is_dir _. not (null ignore) && ignored ignore rel is_dir) one_file_system
        (record { entries = []; count = 0; send_rc = ok tt; channel = s.channel })) [
          | none ↦ none
          | some r ↦ some (finish s r)
        ]
