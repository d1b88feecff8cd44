-- ===== src/Mcp.antt =====
-- mcp_gateway.py: the agent's tool calls, as MCP messages, turned into orders.
pub mod Protocol
pub mod Call
pub mod Server
