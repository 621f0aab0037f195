-- ===== src/Mcp/Tools/Flags.antt =====
-- Which results of tools are marked as errors.
use ebpf_assist.Prelude.{
  ℕ, Bool, true, not, ◌&&◌, String, Option, none, some, if◌then◌else◌, ◌≡◌, refl,
}
use ebpf_assist.Common.{Request, Response, Text}
use ebpf_assist.Common.Answers.{is_answer, is_error}
use ebpf_assist.Mcp.{Outside}
use ebpf_assist.Mcp.Protocol.{ToolCallResult, text, failure}
use ebpf_assist.Mcp.Tools.Replies

-- The `isError` of a result.
abbrev pub flag : (is_good : Bool) → Option Bool
flag is_good = if is_good then none else some true

-- The tools that ask the daemon, with the arguments that their request carries.
pub data DaemonTool : Type 0 where
  load : (path : String) (name : Option String) → DaemonTool
  unload : (id : ℕ) → DaemonTool
  attach : (id : ℕ) (target : String) → DaemonTool
  detach : (id : ℕ) → DaemonTool
  list : DaemonTool
  status : DaemonTool
  unlock : DaemonTool
  map_list : (id : ℕ) → DaemonTool
  map_read : (id : ℕ) (name : String) (key : Option Text) → DaemonTool
  map_write : (id : ℕ) (name : String) (key value : Text) → DaemonTool
  map_delete : (id : ℕ) (name : String) (key : Text) → DaemonTool

-- The request that belongs to each, which Service finds in the calls of the tools.
abbrev pub tool_request : DaemonTool → Request
tool_request (DaemonTool.load path name) = Request.load path name
tool_request (DaemonTool.unload id) = Request.unload id
tool_request (DaemonTool.attach id target) = Request.attach id target
tool_request (DaemonTool.detach id) = Request.detach id
tool_request DaemonTool.list = Request.list_all
tool_request DaemonTool.status = Request.status
tool_request DaemonTool.unlock = Request.unlock
tool_request (DaemonTool.map_list id) = Request.map_list id
tool_request (DaemonTool.map_read id name key) = Request.map_read id name key
tool_request (DaemonTool.map_write id name key value) = Request.map_write id name key value
tool_request (DaemonTool.map_delete id name key) = Request.map_delete id name key

module _ (o : Outside) where
  unfoldable pub tool_reply : DaemonTool → Response → ToolCallResult
  unfolding Replies.load Replies.unload Replies.attach Replies.detach Replies.list Replies.status
      Replies.unlock Replies.map_list Replies.map_read Replies.map_write Replies.map_delete
  tool_reply (DaemonTool.load path name) = Replies.load o
  tool_reply (DaemonTool.unload id) = Replies.unload o
  tool_reply (DaemonTool.attach id target) = Replies.attach o
  tool_reply (DaemonTool.detach id) = Replies.detach o
  tool_reply DaemonTool.list = Replies.list o
  tool_reply DaemonTool.status = Replies.status o
  tool_reply DaemonTool.unlock = Replies.unlock
  tool_reply (DaemonTool.map_list id) = Replies.map_list o id
  tool_reply (DaemonTool.map_read id name key) = Replies.map_read o
  tool_reply (DaemonTool.map_write id name key value) = Replies.map_write o
  tool_reply (DaemonTool.map_delete id name key) = Replies.map_delete o

  -- The result of a tool that asks the daemon is marked as an error unless the response is an answer
  -- to the tool's request and no error.
  pub tool_reply-is_error :
      (t : DaemonTool) (r : Response)
      → (tool_reply t r).is_error ≡ flag (is_answer (tool_request t) r && not (is_error r))
  unfolding Replies.load Replies.unload Replies.attach Replies.detach Replies.list Replies.status
      Replies.unlock Replies.map_list Replies.map_read Replies.map_write Replies.map_delete
      Replies.refused Replies.unexpected tool_reply text failure is_answer is_error
  tool_reply-is_error (DaemonTool.load path name) (Response.loaded i n ty warning) = refl
  tool_reply-is_error (DaemonTool.load path name) (Response.error message code) = refl
  tool_reply-is_error (DaemonTool.load path name) _ = refl
  tool_reply-is_error (DaemonTool.unload id) (Response.unloaded i) = refl
  tool_reply-is_error (DaemonTool.unload id) (Response.error message code) = refl
  tool_reply-is_error (DaemonTool.unload id) _ = refl
  tool_reply-is_error (DaemonTool.attach id target) (Response.attached_to i t) = refl
  tool_reply-is_error (DaemonTool.attach id target) (Response.error message code) = refl
  tool_reply-is_error (DaemonTool.attach id target) _ = refl
  tool_reply-is_error (DaemonTool.detach id) (Response.detached i) = refl
  tool_reply-is_error (DaemonTool.detach id) (Response.error message code) = refl
  tool_reply-is_error (DaemonTool.detach id) _ = refl
  tool_reply-is_error DaemonTool.list (Response.programs ps) = refl
  tool_reply-is_error DaemonTool.list (Response.error message code) = refl
  tool_reply-is_error DaemonTool.list _ = refl
  tool_reply-is_error DaemonTool.status (Response.status_is version up loaded caps) = refl
  tool_reply-is_error DaemonTool.status (Response.error message code) = refl
  tool_reply-is_error DaemonTool.status _ = refl
  tool_reply-is_error DaemonTool.unlock Response.unlocked = refl
  tool_reply-is_error DaemonTool.unlock (Response.error message code) = refl
  tool_reply-is_error DaemonTool.unlock _ = refl
  tool_reply-is_error (DaemonTool.map_list id) (Response.maps ms) = refl
  tool_reply-is_error (DaemonTool.map_list id) (Response.error message code) = refl
  tool_reply-is_error (DaemonTool.map_list id) _ = refl
  tool_reply-is_error (DaemonTool.map_read id name key) (Response.map_entries n es) = refl
  tool_reply-is_error (DaemonTool.map_read id name key) (Response.error message code) = refl
  tool_reply-is_error (DaemonTool.map_read id name key) _ = refl
  tool_reply-is_error (DaemonTool.map_write id name key value) (Response.map_written n k) = refl
  tool_reply-is_error (DaemonTool.map_write id name key value) (Response.error message code) = refl
  tool_reply-is_error (DaemonTool.map_write id name key value) _ = refl
  tool_reply-is_error (DaemonTool.map_delete id name key) (Response.map_deleted n k) = refl
  tool_reply-is_error (DaemonTool.map_delete id name key) (Response.error message code) = refl
  tool_reply-is_error (DaemonTool.map_delete id name key) _ = refl
