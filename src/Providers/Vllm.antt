-- ===== src/Providers/Vllm.antt =====
-- pkg/infrastructure_layer/provider/drivers/vllm/vllm_provider.go. A call reads the whole body of an
-- answer or fails; a stream's lines are a list, whose reader keeps up and does not cancel.
mod Server
mod Chat
unfoldable pub use Server.*
unfoldable pub use Chat.*
