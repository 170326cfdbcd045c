-- ===== src/Protocol/MsgTypes.antt =====
-- src/core/protocol.hpp: the codes of `MsgType`, the flag of a streamed reply and the limit of file
-- offsets.
use wsldrive.Prelude.{ℕ, ◌^◌}
use wsldrive.Protocol.Header.{MsgType}

abbrev pub hello : MsgType
hello = 1

abbrev pub hello_ack : MsgType
hello_ack = 2

abbrev pub snapshot_request : MsgType
snapshot_request = 3

abbrev pub snapshot : MsgType
snapshot = 4

abbrev pub invalidation : MsgType
invalidation = 5

abbrev pub read_request : MsgType
read_request = 6

abbrev pub read_response : MsgType
read_response = 7

abbrev pub error : MsgType
error = 8

abbrev pub ping : MsgType
ping = 9

abbrev pub pong : MsgType
pong = 10

abbrev pub write_request : MsgType
write_request = 11

abbrev pub write_response : MsgType
write_response = 12

abbrev pub create_request : MsgType
create_request = 13

abbrev pub create_response : MsgType
create_response = 14

abbrev pub mkdir_request : MsgType
mkdir_request = 15

abbrev pub unlink_request : MsgType
unlink_request = 16

abbrev pub rmdir_request : MsgType
rmdir_request = 17

abbrev pub rename_request : MsgType
rename_request = 18

abbrev pub truncate_request : MsgType
truncate_request = 19

abbrev pub success : MsgType
success = 20

abbrev pub read_many_request : MsgType
read_many_request = 21

abbrev pub read_many_response : MsgType
read_many_response = 22

abbrev pub readlink_request : MsgType
readlink_request = 23

abbrev pub readlink_response : MsgType
readlink_response = 24

abbrev pub auth : MsgType
auth = 25

abbrev pub flag_more : ℕ
flag_more = 1

abbrev pub max_file_offset : ℕ
max_file_offset = 2 ^ 44
