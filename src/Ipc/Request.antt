-- ===== src/Ipc/Request.antt =====
-- Requests and results of the service (Source/ryazha-clk/sysmodule/src/ipc/ipc_server.h and
-- ipc_server.c, common/include/hocclk/errors.h). A request is what libnx parses, with the words of its
-- header and the arguments behind it.
use rcu.Base.{
  ℕ, ◌-◌, ◌*◌, Bool, true, false, not, ◌||◌, Option, none, some, List, ltb, if◌then◌else◌,
}

-- Results: success, those of libnx, the unknown type of a request, those of the service, and those of
-- the kernel by number.
pub data Result : Type 0 where
  success bad_input out_of_memory not_found unknown_type : Result
  generic config_not_loaded config_save_failed : Result
  timed_out cancelled connection_closed : Result
  kernel : ℕ → Result

abbrev pub succeeded : Result → Bool
succeeded success = true
succeeded r = false

-- `CmifCommandType_Request`, `CmifCommandType_Close`, and the others.
pub data Kind : Type 0 where
  request close other_kind : Kind

-- The arguments behind the header, read as each command reads them.
pub record Args : Type 0 where
  pub tid : ℕ
  pub mhz : ℕ → ℕ → ℕ
  pub enabled : ℕ
  pub hoc_module : ℕ
  pub hz : ℕ
  pub max_count : ℕ

-- `HipcParsedRequest` with the header that `cmifGetAlignedDataStart` finds, whether its magic is
-- `CMIF_IN_HEADER_MAGIC`, the sizes of the buffers, and the list of settings in the first send buffer.
pub record Hipc : Type 0 where
  pub kind : Kind
  pub num_data_words : ℕ
  pub has_header : Bool
  pub magic_matches : Bool
  pub cmd_id : ℕ
  pub args : Args
  pub recv_buffers : List ℕ
  pub send_buffers : List ℕ
  pub sent_values : ℕ → ℕ

-- `sizeof(IpcServerRawHeader)`.
abbrev pub header_size : ℕ
header_size = 16

-- `IpcServerRequestData`: the command and the number of bytes behind the header.
pub record Data : Type 0 where
  pub cmd_id : ℕ
  pub size : ℕ

abbrev pub no_data : Data
no_data = record { cmd_id = 0; size = 0 }

-- `_ipcServerParseRequest`; `none` is `LibnxError_BadInput`.
unfoldable pub parse_request : Hipc → Option Data
parse_request r = elim r.kind [
  | request ↦
      let data_size = r.num_data_words * 4 in
      if not r.has_header || ltb data_size header_size || not r.magic_matches
      then none
      else some (record {
        cmd_id = r.cmd_id;
        size = if ltb header_size data_size then data_size - header_size else 0;
      })
  | close ↦ some no_data
  | other_kind ↦ some no_data
]
