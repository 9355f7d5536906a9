-- ===== src/Selector.antt =====
-- Selector.h, Selector.cpp: the JMS message selectors. The tokens are in Selector/Tokenizer, the
-- values and their comparisons in Selector/Values, the closures that the parser builds in
-- Selector/Logic, the parser in Selector/Parser and LIKE in Selector/Like.
pub mod Tokenizer
pub mod Like
pub mod Values
pub mod Logic
pub mod Parser
mod Tests
