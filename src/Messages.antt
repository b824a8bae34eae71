-- ===== src/Messages.antt =====
-- What the parts send to one another: event types and payloads (api/v1/messaging/event/event.go),
-- capability profiles (api/v1/domain/capability/cv.go), task board messages
-- (api/v1/messaging/taskmsg/task_msg.go) and node messages (api/v1/domain/node/node.go).
use lucinda.Base.{lit, Str, ℤ, pos, List, []}
use lucinda.Task.{Addr, TaskSpec, Task, TaskAd}
use lucinda.Hardware.{HardwareSnapshot}

-- The named values of a string type; `other` is any string that has no name.
pub data EventType : Type 0 where
  user_request_received user_response_sent : EventType
  task_preplanned task_ready task_running task_done task_failed task_republished : EventType
  task_ad_received task_cv_received task_assigned : EventType
  hardware_changed : EventType
  other : Str → EventType

-- The strings of the named values.
unfoldable pub topic_name : EventType → Str
topic_name user_request_received = lit "user.requested"
topic_name user_response_sent = lit "user.responded"
topic_name task_preplanned = lit "task.preplanned"
topic_name task_ready = lit "task.ready"
topic_name task_running = lit "task.running"
topic_name task_done = lit "task.done"
topic_name task_failed = lit "task.failed"
topic_name task_republished = lit "task.republished"
topic_name task_ad_received = lit "task.ad.received"
topic_name task_cv_received = lit "task.cv.received"
topic_name task_assigned = lit "task.assigned"
topic_name hardware_changed = lit "hardware.changed"
topic_name (other s) = s

pub record CapabilityCv : Type 0 where
  pub task_id : Str
  pub peer_id : Str
  pub hardware : HardwareSnapshot
  pub models : List Str
  pub tools : List Str
  pub labels : List Str

pub record TaskBroadcastMsg : Type 0 where
  pub ad : TaskAd

pub record TaskRequestMsg : Type 0 where
  pub cv : CapabilityCv

pub record TaskAssignMsg : Type 0 where
  pub node_id : Str
  pub origin_node_id : Str
  pub ttl : ℤ
  pub prompt : Str
  pub spec : TaskSpec

pub record TaskResultMsg : Type 0 where
  pub node_id : Str
  pub output : Str

unfoldable pub task_ad_to_task_broadcast_msg : TaskAd → TaskBroadcastMsg
task_ad_to_task_broadcast_msg ad = record { ad = ad }

unfoldable pub task_cv_to_task_request_msg : CapabilityCv → TaskRequestMsg
task_cv_to_task_request_msg cv = record { cv = cv }

unfoldable pub task_to_task_assign_msg : Task → TaskAssignMsg
task_to_task_assign_msg task = record {
  node_id = task.meta.id;
  origin_node_id = [];
  ttl = task.spec.deadline;
  prompt = task.spec.prompt;
  spec = task.spec;
}

-- The dynamic types that an event's `Data` or a message's `Body` has in the program. `decoded` is
-- what `json.Unmarshal` puts into a field of type `any`: a map, list, text, number or `nil`, and
-- none of the program's own types; its text stands for all of these.
pub data Payload : Type 0 where
  node : Addr → Payload
  task : Task → Payload
  ad : TaskAd → Payload
  broadcast : TaskBroadcastMsg → Payload
  request : TaskRequestMsg → Payload
  assign : TaskAssignMsg → Payload
  result : TaskResultMsg → Payload
  hardware : HardwareSnapshot → Payload
  decoded : Str → Payload

pub record NodeMessage : Type 0 where
  pub protocol : Str
  pub topic : EventType
  pub timestamp : ℤ
  pub from : Str
  pub to : Str
  pub body : Payload

unfoldable pub new_node_message : Str → EventType → Str → Str → Payload → NodeMessage
new_node_message protocol topic from to body = record {
  protocol = protocol;
  topic = topic;
  timestamp = pos 0;
  from = from;
  to = to;
  body = body;
}
