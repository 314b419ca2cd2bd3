-- ===== src/Http.antt =====
-- internal/delivery and internal/infrastructure/grpc: what the server answers.
pub mod Text
pub mod Reply
pub mod Responses
pub mod FileHandlers
pub mod AuthClient
pub mod AuthHandlers
pub mod UserHandlers
pub mod Middlewares
pub mod Routes
pub mod Leaves
pub mod Failures
pub mod Serving
pub mod System
pub mod Handles
pub mod Counters
pub mod Backed
pub mod Access
pub mod Limited
pub mod Limit
pub mod Attempts
pub mod Answers
pub mod Tidy
pub mod Typed
pub mod Statuses
pub mod Pages
