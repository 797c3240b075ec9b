-- ===== src/Util.antt =====
-- src/util: the JSON text helpers of util/JsonUtil.cpp, and the clock and the log of
-- util/TimeUtil.cpp and util/Logger.cpp, which enter the model as arguments or not at all.
pub mod Json
